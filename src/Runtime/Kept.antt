-- ===== src/Runtime/Kept.antt =====
-- What a turn (runtime.py, `respond_to_call` of store.py) leaves alone.
use real_voice_agent_free.Prelude.{ℕ, String, refl, Option, List, [], ◌∷◌, DateTime}
use real_voice_agent_free.Json.{Json}
use real_voice_agent_free.Env.{Env}
use real_voice_agent_free.Models.{AgentModel, CallModel}
use real_voice_agent_free.Db.{calls, call_turns}
use real_voice_agent_free.Session.{World, new_id}
use real_voice_agent_free.Session.Keeps.{Keeps, keeps_rules, Keeps-bind, Keeps-pure}
use real_voice_agent_free.Webhooks.Closed.{IsClosed, Closed-emit_event}
use real_voice_agent_free.Calls.{get_agent_or_404, get_call_or_404}
use real_voice_agent_free.Availability.{
  Zones, Availability, near_bookings, build_agent_availability_payload,
}
use real_voice_agent_free.Runtime.{
  Services, Reply, failure, reply, Generated, TranscriptionRequest, TurnGenerateRequest,
  SynthesisRequest, heard, openai_transcribe, stub_transcribe, transcribe, generated,
  openai_generate_turn, stub_generate_turn, generate_turn, spoken, openai_synthesize,
  stub_synthesize, synthesize, RuntimeTurnRequest, respond, look_up, execute_tool_call, execute_all,
  execute_runtime_tool_calls, recent_turns, CallRespondRequest, answer_turn,
}

module _ (env : Env) (P : World → Type 0)
    (draws : (kind : String) (n : ℕ) → Keeps P (new_id env kind n)) where
  Keeps-heard : (s : Services) (r : Reply String) → Keeps P (heard env s r)
  unfolding heard
  Keeps-heard s (failure exc) = search keeps_rules
  Keeps-heard s (reply text elapsed) = search keeps_rules

  Keeps-transcribe : (s : Services) (r : TranscriptionRequest) → Keeps P (transcribe env s r)
  unfolding transcribe openai_transcribe stub_transcribe
  Keeps-transcribe s r = search (keeps_rules, Keeps-heard) depth 12

  Keeps-generated :
      (s : Services) (q : TurnGenerateRequest) (r : Reply Generated) → Keeps P (generated env s q r)
  unfolding generated
  Keeps-generated s q (failure exc) = search keeps_rules
  Keeps-generated s q (reply response elapsed) = search keeps_rules

  Keeps-generate_turn : (s : Services) (q : TurnGenerateRequest) → Keeps P (generate_turn env s q)
  unfolding generate_turn openai_generate_turn stub_generate_turn
  Keeps-generate_turn s q = search (keeps_rules, Keeps-generated) depth 12

  Keeps-spoken :
      (q : SynthesisRequest) (path : String) (r : Reply Unit) → Keeps P (spoken env q path r)
  unfolding spoken
  Keeps-spoken q path (failure exc) = search keeps_rules
  Keeps-spoken q path (reply done elapsed) = search keeps_rules

  Keeps-synthesize : (s : Services) (q : SynthesisRequest) → Keeps P (synthesize env s q)
  unfolding synthesize openai_synthesize stub_synthesize
  Keeps-synthesize s q = search (keeps_rules, draws, Keeps-spoken) depth 12

  pub Keeps-respond : (s : Services) (q : RuntimeTurnRequest) → Keeps P (respond env s q)
  unfolding respond
  Keeps-respond s q =
      search (keeps_rules, Keeps-transcribe, Keeps-generate_turn, Keeps-synthesize) depth 12

module _ (env : Env) (z : Zones) (P : World → Type 0) where
  Keeps-look_up :
      (agent : AgentModel) (org : String) (now : DateTime) → Keeps P (look_up env z agent org now)
  unfolding look_up build_agent_availability_payload near_bookings
  Keeps-look_up agent org now = search keeps_rules depth 12

  Keeps-execute_all :
      (agent : AgentModel) (org : String) (now : DateTime) (before : Option Availability)
      (tool_calls : List Json)
      → Keeps P (execute_all env z agent org now before tool_calls)
  unfolding execute_all execute_tool_call
  Keeps-execute_all agent org now before [] = search keeps_rules
  Keeps-execute_all agent org now before (tool_call ∷ tool_calls) =
      Keeps-bind _ _ (search (keeps_rules, Keeps-look_up) depth 12) λ one.
        Keeps-bind _ _ (Keeps-execute_all agent org now one.1 tool_calls) λ rest. Keeps-pure _

  pub Keeps-execute :
      (call : CallModel) (org : String) (tool_calls : List Json) (now : DateTime)
      → Keeps P (execute_runtime_tool_calls env z call org tool_calls now)
  unfolding execute_runtime_tool_calls get_agent_or_404
  Keeps-execute call org [] now = search keeps_rules
  Keeps-execute call org (tool_call ∷ tool_calls) now =
      search (keeps_rules, Keeps-execute_all) depth 12

  pub Keeps-recent_turns : (call_id : String) → Keeps P (recent_turns env call_id)
  unfolding recent_turns
  Keeps-recent_turns call_id = search keeps_rules

module _ (env : Env) (z : Zones) (P : World → Type 0) (closed : IsClosed env P) where
  pub Closed-answer_turn :
      (s : Services) (id : String) (payload : CallRespondRequest) (org trace : String)
      (now : DateTime)
      → Keeps P (answer_turn env z s id payload org trace now)
  unfolding answer_turn get_call_or_404
  Closed-answer_turn s id payload org trace now =
      search
        (
          keeps_rules,
          Keeps-recent_turns env z P,
          Keeps-respond env P closed.by_new_id,
          Keeps-execute env z P,
          closed.by_new_id,
          closed.by_save calls (λ rows db. refl),
          closed.by_insert call_turns (λ rows db. refl),
          Closed-emit_event env P closed,
        )
        depth 24
