-- ===== src/Calls/Runs.antt =====
-- Sequences of the methods on calls (store.py): what holds of the tables after each of them.
use real_voice_agent_free.Prelude.{
  String, ◌≡◌, refl, sym, subst, count, Option, none, some, List, [], ◌∷◌, DateTime,
}
use real_voice_agent_free.Json.{Json}
use real_voice_agent_free.Env.{Env}
use real_voice_agent_free.Models.{CallModel, CallOutcome, CallSummaryModel}
use real_voice_agent_free.Db.{Db, calls, call_summaries, events, webhook_deliveries}
use real_voice_agent_free.Serialize.{serialize_call, serialize_call_turn}
use real_voice_agent_free.Session.{World, M, ◌>>=◌, new_id}
use real_voice_agent_free.Session.Keeps.{Keeps, keeps_rules}
use real_voice_agent_free.Session.Frame.{DiskIs, disk_rules}
use real_voice_agent_free.Session.Does.{Does, Sees, Does-Keeps, session-preserves}
use real_voice_agent_free.Webhooks.Emits.{
  Ignores, Sees-emit_event, Sees-insert, Sees-save, DiskIs-emit_event,
}
use real_voice_agent_free.Calls.{
  CallCreateRequest, CallTurnCreateRequest, CallCompleteRequest, get_agent_or_404, get_call_or_404,
  start_call, create_call, add_turn, add_call_turn, announce, put_summary, end_call, complete_call,
}
use real_voice_agent_free.Calls.Turns.{
  TurnsAreNumbered, append-TurnsAreNumbered, add_turn-Added, of_call,
}

module _ (env : Env) (committed : Db) where
  pub DiskIs-get_agent : (id org : String) → Keeps (DiskIs committed) (get_agent_or_404 id org)
  unfolding get_agent_or_404
  DiskIs-get_agent id org = search disk_rules

  pub DiskIs-get_call : (id org : String) → Keeps (DiskIs committed) (get_call_or_404 id org)
  unfolding get_call_or_404
  DiskIs-get_call id org = search disk_rules

  pub DiskIs-start_call :
      (call : CallModel) (trace : String) (now : DateTime)
      → Keeps (DiskIs committed) (start_call env call trace now)
  unfolding start_call
  DiskIs-start_call call trace now =
      search (disk_rules, DiskIs-get_agent, DiskIs-emit_event env committed) depth 12

  pub DiskIs-add_turn :
      (id : String) (payload : CallTurnCreateRequest) (org trace : String) (now : DateTime)
      → Keeps (DiskIs committed) (add_turn env id payload org trace now)
  unfolding add_turn
  DiskIs-add_turn id payload org trace now =
      search (disk_rules, DiskIs-get_call, DiskIs-emit_event env committed) depth 16

  DiskIs-put_summary :
      (old : Option CallSummaryModel) (summary : CallSummaryModel)
      → Keeps (DiskIs committed) (put_summary old summary)
  DiskIs-put_summary none summary = search disk_rules
  DiskIs-put_summary (some old) summary = search disk_rules

  DiskIs-announce :
      (call : CallModel) (payload : CallCompleteRequest) (org trace : String) (now : DateTime)
      (outcome : CallOutcome)
      → Keeps (DiskIs committed) (announce env call payload org trace now outcome)
  unfolding announce
  DiskIs-announce call payload org trace now CallOutcome.failed =
      search (disk_rules, DiskIs-emit_event env committed)
  DiskIs-announce call payload org trace now CallOutcome.escalated =
      search (disk_rules, DiskIs-emit_event env committed)
  DiskIs-announce call payload org trace now _ = search disk_rules

  pub DiskIs-end_call :
      (id : String) (payload : CallCompleteRequest) (org trace : String) (now : DateTime)
      → Keeps (DiskIs committed) (end_call env id payload org trace now)
  unfolding end_call
  DiskIs-end_call id payload org trace now =
      search
        (
          disk_rules,
          DiskIs-get_call,
          DiskIs-put_summary,
          DiskIs-announce,
          DiskIs-emit_event env committed,
        )
        depth 16

-- The bodies under a condition on the tables that the tables that they write have no part in.
module _ (env : Env) where
  add_turn-TurnsAreNumbered :
      (id : String) (payload : CallTurnCreateRequest) (org trace : String) (now : DateTime)
      → Does TurnsAreNumbered (add_turn env id payload org trace now) (λ turn. TurnsAreNumbered)
  add_turn-TurnsAreNumbered id payload org trace now = record {
    post = λ w turn h e.
        let added =
          (add_turn-Added env id payload org trace now w.view.call_turns).post w turn refl e in
        append-TurnsAreNumbered w.view (add_turn env id payload org trace now w).1.view turn h
          (subst (λ (k : String). turn.turn_index ≡ count (of_call k) w.view.call_turns)
            (sym added.1) added.2)
          added.0;
  }

  start_call-Sees :
      (P : Db → Type 0)
      → Ignores P calls
      → Ignores P events
      → Ignores P webhook_deliveries
      → (call : CallModel) (trace : String) (now : DateTime)
      → Keeps (Sees P) (start_call env call trace now)
  unfolding start_call get_agent_or_404
  start_call-Sees P no_calls no_events no_deliveries call trace now =
      search
        (keeps_rules, Sees-insert P calls no_calls, Sees-emit_event env P no_events no_deliveries)
        depth 12

  module _ (P : Db → Type 0) (no_events : Ignores P events)
      (no_deliveries : Ignores P webhook_deliveries) where
    pub announce-Sees :
        (call : CallModel) (payload : CallCompleteRequest) (org trace : String) (now : DateTime)
        (outcome : CallOutcome)
        → Keeps (Sees P) (announce env call payload org trace now outcome)
    unfolding announce
    announce-Sees call payload org trace now CallOutcome.failed =
        search (keeps_rules, Sees-emit_event env P no_events no_deliveries)
    announce-Sees call payload org trace now CallOutcome.escalated =
        search (keeps_rules, Sees-emit_event env P no_events no_deliveries)
    announce-Sees call payload org trace now _ = search keeps_rules

  module _ (P : Db → Type 0) (no_summaries : Ignores P call_summaries) (no_calls : Ignores P calls)
      (no_events : Ignores P events) (no_deliveries : Ignores P webhook_deliveries) where
    put_summary-Sees :
        (old : Option CallSummaryModel) (summary : CallSummaryModel)
        → Keeps (Sees P) (put_summary old summary)
    put_summary-Sees none summary = Sees-insert P call_summaries no_summaries summary
    put_summary-Sees (some old) summary = Sees-save P call_summaries no_summaries summary

    end_call-Sees :
        (id : String) (payload : CallCompleteRequest) (org trace : String) (now : DateTime)
        → Keeps (Sees P) (end_call env id payload org trace now)
    unfolding end_call get_call_or_404
    end_call-Sees id payload org trace now =
        search
          (
            keeps_rules,
            put_summary-Sees,
            Sees-save P calls no_calls,
            announce-Sees P no_events no_deliveries,
            Sees-emit_event env P no_events no_deliveries,
          )
          depth 16

-- The calls of the methods that change the tables of calls.
pub data CallStep : Type 0 where
  create : CallCreateRequest → String → String → DateTime → CallStep
  turn : String → CallTurnCreateRequest → String → String → DateTime → CallStep
  complete : String → CallCompleteRequest → String → String → DateTime → CallStep

unfoldable pub perform : Env → CallStep → M Json
perform env (create payload org trace now) = create_call env payload org trace now
perform env (turn id payload org trace now) = add_call_turn env id payload org trace now
perform env (complete id payload org trace now) = complete_call env id payload org trace now

-- One after the other, whether they return or raise.
unfoldable pub perform_all : Env → List CallStep → World → World
perform_all env [] w = w
perform_all env (step ∷ steps) w = perform_all env steps (perform env step w).1

pub perform-TurnsAreNumbered :
    (env : Env) (step : CallStep) (w : World)
    → TurnsAreNumbered w.disk
    → TurnsAreNumbered (perform env step w).1.disk
unfolding perform create_call add_call_turn complete_call new_id ◌>>=◌
perform-TurnsAreNumbered env (create payload org trace now) w h =
    session-preserves (start_call env _ trace now) serialize_call
      (Does-Keeps _ (
        start_call-Sees env TurnsAreNumbered (λ d rows k. record { numbered = k.numbered })
          (λ d rows k. record { numbered = k.numbered })
          (λ d rows k. record { numbered = k.numbered }) _ trace now))
      (λ d. DiskIs-start_call env d _ trace now) _ h
perform-TurnsAreNumbered env (turn id payload org trace now) w h =
    session-preserves (add_turn env id payload org trace now) serialize_call_turn
      (add_turn-TurnsAreNumbered env id payload org trace now)
      (λ d. DiskIs-add_turn env d id payload org trace now) w h
perform-TurnsAreNumbered env (complete id payload org trace now) w h =
    session-preserves (end_call env id payload org trace now) serialize_call
      (Does-Keeps _ (
        end_call-Sees env TurnsAreNumbered (λ d rows k. record { numbered = k.numbered })
          (λ d rows k. record { numbered = k.numbered })
          (λ d rows k. record { numbered = k.numbered })
          (λ d rows k. record { numbered = k.numbered }) id payload org trace now))
      (λ d. DiskIs-end_call env d id payload org trace now) w h

-- After any calls of create_call, add_call_turn and complete_call, in any order and for any
-- organizations, whether they return or raise, the committed turns of each call are numbered
-- 0, 1, 2, ... in the order in which they were added, provided that they were so at first.
pub perform_all-TurnsAreNumbered :
    (env : Env) (steps : List CallStep) (w : World)
    → TurnsAreNumbered w.disk
    → TurnsAreNumbered (perform_all env steps w).disk
unfolding perform_all
perform_all-TurnsAreNumbered env [] w h = h
perform_all-TurnsAreNumbered env (step ∷ steps) w h =
    perform_all-TurnsAreNumbered env steps (perform env step w).1
      (perform-TurnsAreNumbered env step w h)
