-- ===== src/Runtime/Llm.antt =====
-- What to say: apps/api/src/voiceagent_api/adapters/llm.py.
use real_voice_agent_free.Prelude.{
  ℕ, ◌*◌, max, String, ◌==◌, List, [], ◌∷◌, any, contains, concat, join_lines, last_of,
  if◌then◌else◌,
}
use real_voice_agent_free.Json.{Json, str, dict}
use real_voice_agent_free.Errors.{upstream_service_error}
use real_voice_agent_free.Env.{Env}
use real_voice_agent_free.Session.{M, pure, raise, ◌>>◌}
use real_voice_agent_free.Runtime.Outside.{
  Reply, failure, reply, Generated, Services, non_empty, openai_enabled,
}

-- One entry of the conversation: the role and the text.
pub record Message : Type 0 where
  pub role : String
  pub text : String

pub record TurnGenerateRequest : Type 0 where
  pub call_id : String
  pub agent_id : String
  pub turn_index : ℕ
  pub user_text : String
  pub trace_id : String
  pub conversation_history : List Message

pub record TurnGenerateResult : Type 0 where
  pub provider : String
  pub assistant_text : String
  pub tool_calls : List Json
  pub finish_reason : String
  pub tokens_in : ℕ
  pub tokens_out : ℕ
  pub latency_ms : ℕ

unfoldable pub infer_tool_calls : String → List Json
infer_tool_calls normalized_text =
    if any (λ keyword. contains keyword normalized_text)
      ("запис" ∷ "appointment" ∷ "book" ∷ "slot" ∷ "calendar" ∷ [])
    then dict (("tool_name", str "calendar.lookup_slots") ∷ ("status", str "planned") ∷ []) ∷ []
    else []

unfoldable pub stub_text : String → List Json → String
stub_text normalized [] =
    if any (λ keyword. contains keyword normalized) ("цен" ∷ "price" ∷ "стоим" ∷ [])
    then "Подскажу по стоимости. Уточните, какая именно услуга вас интересует."
    else "Понял. Уточните, пожалуйста, детали запроса, и я продолжу."
stub_text normalized (call ∷ calls) = "Могу помочь с записью. Назовите удобные дату и время."

unfoldable pub stub_generate_turn : Services → TurnGenerateRequest → M TurnGenerateResult
stub_generate_turn s request =
    let normalized = s.lower request.user_text in
    let tool_calls = infer_tool_calls normalized in
    let assistant_text = stub_text normalized tool_calls in
    pure (record {
      provider = "stub-llm";
      assistant_text = assistant_text;
      tool_calls = tool_calls;
      finish_reason = "completed";
      tokens_in = max 8 (s.word_count request.user_text * 4);
      tokens_out = max 12 (s.word_count assistant_text * 5);
      latency_ms = 180;
    })

unfoldable pub history_lines : Services → List Message → List String
history_lines s [] = []
history_lines s (message ∷ messages) =
    let rest = history_lines s messages in
    let role = s.strip message.role in
    let text = s.strip message.text in
    if text == ""
    then rest
    else concat (s.title (if role == "" then "user" else role) ∷ ": " ∷ text ∷ []) ∷ rest

abbrev with_history : List String → String → String
with_history [] user_text = user_text
with_history lines user_text =
    concat (
      "Conversation history:\n" ∷ join_lines lines ∷ "\nCurrent caller message:\n" ∷ user_text ∷ [])

unfoldable pub build_llm_input : Services → TurnGenerateRequest → String
build_llm_input s request =
    with_history (history_lines s (last_of 12 request.conversation_history)) request.user_text

unfoldable pub generated :
    Env → Services → TurnGenerateRequest → Reply Generated → M TurnGenerateResult
generated env s request (failure exc) =
    raise (upstream_service_error (concat ("OpenAI text generation failed: " ∷ exc ∷ [])) 502)
generated env s request (reply response elapsed) = do
  non_empty (s.strip response.output_text) "OpenAI response returned empty output"
  pure (record {
    provider = concat ("openai:" ∷ env.settings.openai_llm_model ∷ []);
    assistant_text = s.strip response.output_text;
    tool_calls = infer_tool_calls (s.lower request.user_text);
    finish_reason = "completed";
    tokens_in = response.input_tokens;
    tokens_out = response.output_tokens;
    latency_ms = max 1 elapsed;
  })

unfoldable pub openai_generate_turn : Env → Services → TurnGenerateRequest → M TurnGenerateResult
openai_generate_turn env s request =
    generated env s request (s.responses (build_llm_input s request))

-- get_llm_adapter
unfoldable pub generate_turn : Env → Services → TurnGenerateRequest → M TurnGenerateResult
generate_turn env s request =
    if openai_enabled env then openai_generate_turn env s request else stub_generate_turn s request
