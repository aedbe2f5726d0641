-- ===== src/Runtime/Runs.antt =====
-- Conversations: the methods of `AgentStore` (store.py) on calls with `respond_to_call`, in sequence.
use real_voice_agent_free.Prelude.{
  String, ◌==◌, ◌≡◌, refl, sym, ap, ◌∙◌, subst, ◌&&◌, count, find, some, List, [], ◌∷◌, ◌++◌,
  DateTime,
}
use real_voice_agent_free.Json.{Json}
use real_voice_agent_free.Env.{Env}
use real_voice_agent_free.Models.{CallTurnModel}
use real_voice_agent_free.Db.{Db, calls, call_turns}
use real_voice_agent_free.Serialize.{serialize_call_turn}
use real_voice_agent_free.Session.{World, M}
use real_voice_agent_free.Session.Does.{
  Does, Does-bind, Does-count_rows, Does-new_id, Does-save, Does-insert, Does-pure, Does-Keeps,
  session-preserves,
}
use real_voice_agent_free.Session.Frame.{DiskIs, DiskIs-new_id, DiskIs-insert, DiskIs-save}
use real_voice_agent_free.Webhooks.Closed.{IsClosed}
use real_voice_agent_free.Webhooks.Emits.{Sees-emit_event, Sees-new_id, DiskIs-dispatch}
use real_voice_agent_free.Calls.Turns.{
  get_call-Found, of_call, Added, TurnsAreNumbered, append-TurnsAreNumbered,
}
use real_voice_agent_free.Calls.Runs.{CallStep, perform, perform-TurnsAreNumbered}
use real_voice_agent_free.Availability.{Zones}
use real_voice_agent_free.Runtime.{
  Services, CallRespondRequest, answered_turn, answer_turn, respond_to_call,
}
use real_voice_agent_free.Runtime.Kept.{
  Keeps-recent_turns, Keeps-respond, Keeps-execute, Closed-answer_turn,
}

module _ (env : Env) (z : Zones) (s : Services) where
  answer_turn-Added :
      (call_id : String) (payload : CallRespondRequest) (org trace : String) (now : DateTime)
      (ts : List CallTurnModel)
      → Does
          (λ d. d.call_turns ≡ ts)
          (answer_turn env z s call_id payload org trace now)
          (λ turn. Added call_id ts turn)
  unfolding answer_turn answered_turn
  answer_turn-Added call_id payload org trace now ts =
      let Is : Db → Type 0 = λ d. d.call_turns ≡ ts in
      Does-bind _ _ (get_call-Found Is call_id org) λ call.
        Does-bind _ _ (Does-count_rows call_turns (of_call call_id)) λ n.
          let Counted : Db → Type 0 = λ d.
            ((d.call_turns ≡ ts)
              × (find (λ c. c.id == call_id && c.organization_id == org) d.calls ≡ some call))
            × (count (of_call call_id) d.call_turns ≡ n) in
          Does-bind _ _ (Does-Keeps {P = Counted} _ (Keeps-recent_turns env z _ call_id)) λ recent.
            Does-bind _ _ (Does-Keeps _ (Keeps-respond env _ (Sees-new_id env Counted) s _)) λ r.
              Does-bind _ _ (Does-Keeps _ (Keeps-execute env z _ call org _ now)) λ tools.
                Does-bind _ _ (Does-new_id env "turn_" 8) λ id.
                  let turn = answered_turn id call_id n r tools now in
                  Does-bind _ _
                    (Does-save (λ d. (d.call_turns ≡ ts) × (count (of_call call_id) ts ≡ n)) calls _
                      λ d h. (h.0.0, ap (count (of_call call_id)) (sym h.0.0) ∙ h.1))
                    λ u.
                      Does-bind _ _
                        (Does-insert (Added call_id ts turn) call_turns _ λ d h free.
                          (ap (λ (xs : List CallTurnModel). xs ++ turn ∷ []) h.0, refl, sym h.1))
                        λ u'.
                          Does-bind _ _
                            (Does-Keeps _ (Sees-emit_event env _ (λ d rows h. h) (λ d rows h. h) _))
                            λ e. Does-pure _ _ (λ d h. h)

  answer_turn-TurnsAreNumbered :
      (id : String) (payload : CallRespondRequest) (org trace : String) (now : DateTime)
      → Does TurnsAreNumbered
          (answer_turn env z s id payload org trace now)
          (λ turn. TurnsAreNumbered)
  answer_turn-TurnsAreNumbered id payload org trace now = record {
    post = λ w turn h e.
        let answered = answer_turn env z s id payload org trace now in
        let added =
          (answer_turn-Added id payload org trace now w.view.call_turns).post w turn refl e in
        append-TurnsAreNumbered w.view (answered w).1.view turn h
          (subst (λ (k : String). turn.turn_index ≡ count (of_call k) w.view.call_turns)
            (sym added.1) added.2)
          added.0;
  }

pub DiskIs-IsClosed : (env : Env) (d : Db) → IsClosed env (DiskIs d)
DiskIs-IsClosed env d = record {
  by_new_id = DiskIs-new_id d env;
  by_dispatch = DiskIs-dispatch env d;
  by_insert = λ t plain r. DiskIs-insert d t r;
  by_save = λ t plain r. DiskIs-save d t r;
}

-- A call of a method on calls, or one of `respond_to_call`.
pub data Step : Type 0 where
  plain : CallStep → Step
  respond : String → CallRespondRequest → String → String → DateTime → Step

unfoldable pub converse : Env → Zones → Services → Step → M Json
converse env z s (plain step) = perform env step
converse env z s (respond id payload org trace now) =
    respond_to_call env z s id payload org trace now

-- One after the other, whether they return or raise.
unfoldable pub converse_all : Env → Zones → Services → List Step → World → World
converse_all env z s [] w = w
converse_all env z s (step ∷ steps) w = converse_all env z s steps (converse env z s step w).1

converse-TurnsAreNumbered :
    (env : Env) (z : Zones) (s : Services) (step : Step) (w : World)
    → TurnsAreNumbered w.disk
    → TurnsAreNumbered (converse env z s step w).1.disk
unfolding converse respond_to_call
converse-TurnsAreNumbered env z s (plain step) w h = perform-TurnsAreNumbered env step w h
converse-TurnsAreNumbered env z s (respond id payload org trace now) w h =
    session-preserves (answer_turn env z s id payload org trace now) serialize_call_turn
      (answer_turn-TurnsAreNumbered env z s id payload org trace now)
      (λ d. Closed-answer_turn env z (DiskIs d) (DiskIs-IsClosed env d) s id payload org trace now)
      w h

-- After any calls of create_call, add_call_turn, respond_to_call and complete_call, in any order and
-- for any organizations, whether they return or raise and whatever the speech and language services
-- answer, the committed turns of each call are numbered 0, 1, 2, ... in the order in which they
-- were added, provided that they were so at first.
pub converse_all-TurnsAreNumbered :
    (env : Env) (z : Zones) (s : Services) (steps : List Step) (w : World)
    → TurnsAreNumbered w.disk
    → TurnsAreNumbered (converse_all env z s steps w).disk
unfolding converse_all
converse_all-TurnsAreNumbered env z s [] w h = h
converse_all-TurnsAreNumbered env z s (step ∷ steps) w h =
    converse_all-TurnsAreNumbered env z s steps (converse env z s step w).1
      (converse-TurnsAreNumbered env z s step w h)
