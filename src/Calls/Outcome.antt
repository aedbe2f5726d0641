-- ===== src/Calls/Outcome.antt =====
-- What is read back of a call that was completed (store.py, `complete_call`, `get_call`,
-- `get_call_summary`).
use real_voice_agent_free.Prelude.{
  String, ◌==◌, ◌≡◌, ◌≢◌, ◌↔◌, refl, sym, ap, ◌∙◌, Bool, true, ◌&&◌, Option, none, some, List, find,
  find-test, find-append, DateTime, arith, eq_iff, eq_refl,
}
use real_voice_agent_free.Json.{Json}
use real_voice_agent_free.Errors.{ok}
use real_voice_agent_free.Env.{Env}
use real_voice_agent_free.Models.{CallModel, CallSummaryModel, CallStatus, CallOutcome}
use real_voice_agent_free.Db.{Db, calls, call_summaries}
use real_voice_agent_free.Serialize.{serialize_call, serialize_call_summary}
use real_voice_agent_free.Session.{World, pure, ◌>>=◌, scalar, get, require, session}
use real_voice_agent_free.Session.Frame.{find-replace}
use real_voice_agent_free.Session.Does.{
  Does, Does-bind, Does-get, Does-given, Does-before, Does-save, Does-insert, Does-pure, Does-Keeps,
  session-commits,
}
use real_voice_agent_free.Webhooks.Emits.{Sees-emit_event}
use real_voice_agent_free.Calls.{
  CallCompleteRequest, final_status, summary_of, ended_call, put_summary, end_call, complete_call,
  get_call, get_call_or_404, get_call_summary,
}
use real_voice_agent_free.Calls.Turns.{get_call-Found}
use real_voice_agent_free.Calls.Runs.{announce-Sees}

abbrev pub is_call : String → String → CallModel → Bool
is_call id org c = c.id == id && c.organization_id == org

abbrev pub is_summary : String → CallSummaryModel → Bool
is_summary id s = s.call_id == id

final_status-failed :
    (o : CallOutcome) → (final_status o ≡ CallStatus.failed) ↔ (o ≡ CallOutcome.failed)
unfolding final_status
final_status-failed o = ground arith

final_status-escalated :
    (o : CallOutcome) → (final_status o ≡ CallStatus.escalated) ↔ (o ≡ CallOutcome.escalated)
unfolding final_status
final_status-escalated o = ground arith

final_status-not_active : (o : CallOutcome) → final_status o ≢ CallStatus.active
unfolding final_status
final_status-not_active o = ground arith

module _ (id org : String) (payload : CallCompleteRequest) (now : DateTime) where
  ended_call-is_call :
      (c : CallModel) → is_call id org c ≡ true → is_call id org (ended_call c payload now) ≡ true
  unfolding ended_call
  ended_call-is_call c h = h

  same_key :
      (c : CallModel)
      → is_call id org c ≡ true
      → (x : CallModel) → is_call id org x ≡ true
      → (x.id == (ended_call c payload now).id) ≡ true
  unfolding ended_call
  same_key c hc x hx = ground (arith, eq_iff c.id id, eq_iff x.id id, eq_iff x.id c.id)

  summary_of-is_summary :
      (old : Option CallSummaryModel) (ss : List CallSummaryModel)
      → find (is_summary id) ss ≡ old
      → is_summary id (summary_of id payload now old) ≡ true
  unfolding summary_of
  summary_of-is_summary none ss h = eq_refl id
  summary_of-is_summary (some s) ss h = find-test (is_summary id) ss s h

  same_summary :
      (s : CallSummaryModel)
      → is_summary id s ≡ true
      → (x : CallSummaryModel) → is_summary id x ≡ true
      → (x.call_id == (summary_of id payload now (some s)).call_id) ≡ true
  unfolding summary_of
  same_summary s hs x hx =
      ground (arith, eq_iff s.call_id id, eq_iff x.call_id id, eq_iff x.call_id s.call_id)

  -- what `d` tells of the call and of its summary
  abbrev Ended : CallModel → Option CallSummaryModel → Db → Type 0
  Ended c old d =
      (find (is_call id org) d.calls ≡ some (ended_call c payload now))
      × (find (is_summary id) d.call_summaries ≡ some (summary_of id payload now old))

  abbrev Summarized : List CallModel → Option CallSummaryModel → Db → Type 0
  Summarized cs old d =
      (d.calls ≡ cs)
      × (find (is_summary id) d.call_summaries ≡ some (summary_of id payload now old))

  put_summary-Summarized :
      (cs : List CallModel) (old : Option CallSummaryModel)
      → Does
          (λ d. (d.calls ≡ cs) × (find (is_summary id) d.call_summaries ≡ old))
          (put_summary old (summary_of id payload now old))
          (λ u. Summarized cs old)
  put_summary-Summarized cs none = Does-insert (Summarized cs none) call_summaries _ λ d h free. (
    h.0,
    find-append (is_summary id) d.call_summaries _ h.1
        (summary_of-is_summary none d.call_summaries h.1),
  )
  put_summary-Summarized cs (some s) = Does-save (Summarized cs (some s)) call_summaries _ λ d h. (
    h.0,
    find-replace (λ x. x.call_id) (is_summary id) (summary_of id payload now (some s))
        d.call_summaries s h.1 (summary_of-is_summary (some s) d.call_summaries h.1)
        (same_summary s (find-test (is_summary id) d.call_summaries s h.1)),
  )

  -- The call and the summary that `end_call` finds in `cs` and `ss`.
  abbrev FoundAndEnded : List CallModel → List CallSummaryModel → CallModel → Db → Type 0
  FoundAndEnded cs ss call d =
      (found : CallModel) × (find (is_call id org) cs ≡ some found)
      × (call ≡ ended_call found payload now)
      × Ended found (find (is_summary id) ss) d

  end_call-Ended :
      (env : Env) (trace : String) (cs : List CallModel) (ss : List CallSummaryModel)
      → Does
          (λ d. (d.calls ≡ cs) × (d.call_summaries ≡ ss))
          (end_call env id payload org trace now)
          (FoundAndEnded cs ss)
  unfolding end_call
  end_call-Ended env trace cs ss =
      Does-bind _ _ (get_call-Found (λ d. (d.calls ≡ cs) × (d.call_summaries ≡ ss)) id org) λ c.
        Does-bind _ _ (Does-get call_summaries id) λ old.
          Does-given {F = (find (is_call id org) cs ≡ some c) × (find (is_summary id) ss ≡ old)} _
            (λ d
                (h : (((d.calls ≡ cs) × (d.call_summaries ≡ ss))
                    × (find (is_call id org) d.calls ≡ some c))
                  × (find (is_summary id) d.call_summaries ≡ old)).
              (
                ap (find (is_call id org)) (sym h.0.0.0) ∙ h.0.1,
                ap (find (is_summary id)) (sym h.0.0.1) ∙ h.1,
              ))
            λ f.
              Does-bind _ _ (Does-before _ (λ d h. (h.0.0.0, h.1)) (put_summary-Summarized cs old))
                λ u.
                  Does-bind _ _
                    (Does-save (Ended c old) calls _ λ d h. (
                      find-replace (λ x. x.id) (is_call id org) (ended_call c payload now) d.calls c
                          (ap (find (is_call id org)) h.0 ∙ f.0)
                          (ended_call-is_call c (find-test (is_call id org) cs c f.0))
                          (same_key c (find-test (is_call id org) cs c f.0)),
                      h.1,
                    ))
                    λ u'.
                      Does-bind _ _
                        (Does-Keeps _ (
                          announce-Sees env (Ended c old) (λ d rows h. h) (λ d rows h. h) _ payload
                            org trace now _))
                        λ u''.
                          Does-bind _ _
                            (Does-Keeps _
                              (Sees-emit_event env (Ended c old) (λ d rows h. h) (λ d rows h. h) _))
                            λ e. Does-pure (FoundAndEnded cs ss) _ λ d h. (c, f.0, refl, rw f.1 h)

  get_call-of_found :
      (c : CallModel) (w : World)
      → find (is_call id org) w.disk.calls ≡ some c
      → (get_call id org w).0 ≡ ok (serialize_call c)
  unfolding get_call get_call_or_404 session scalar require pure ◌>>=◌
  get_call-of_found c w h = rw h refl

  get_call_summary-of_found :
      (c : CallModel) (s : CallSummaryModel) (w : World)
      → find (is_call id org) w.disk.calls ≡ some c
      → find (is_summary id) w.disk.call_summaries ≡ some s
      → (get_call_summary id org w).0 ≡ ok (serialize_call_summary s)
  unfolding get_call_summary get_call_or_404 session scalar get require pure ◌>>=◌
  get_call_summary-of_found c s w h h' = rw h (rw h' refl)

  -- The row of the call at its end: what the request gives, and the rest as it was found.
  pub record IsEnded (found c : CallModel) : Type 0 where
    pub outcome : c.outcome ≡ some payload.outcome
    pub failed : (c.status ≡ CallStatus.failed) ↔ (payload.outcome ≡ CallOutcome.failed)
    pub escalated : (c.status ≡ CallStatus.escalated) ↔ (payload.outcome ≡ CallOutcome.escalated)
    pub not_active : c.status ≢ CallStatus.active
    pub duration : c.duration_ms ≡ some payload.duration_ms
    pub recording : c.recording_available ≡ payload.recording_available
    pub ended : c.ended_at ≡ some now
    pub rest : c ≡ record found {
      status = c.status;
      outcome = c.outcome;
      duration_ms = c.duration_ms;
      recording_available = c.recording_available;
      ended_at = c.ended_at;
      updated_at = now;
    }

  ended_call-IsEnded : (found : CallModel) → IsEnded found (ended_call found payload now)
  unfolding ended_call
  ended_call-IsEnded found = record {
    outcome = refl;
    failed = final_status-failed payload.outcome;
    escalated = final_status-escalated payload.outcome;
    not_active = final_status-not_active payload.outcome;
    duration = refl;
    recording = refl;
    ended = refl;
    rest = refl;
  }

  -- The given summary, under the time of the first summary of the call.
  pub record IsSummary (old : Option CallSummaryModel) (s : CallSummaryModel) : Type 0 where
    pub of_call : (s.call_id == id) ≡ true
    pub text : s.summary_text ≡ payload.summary_text
    pub structured : s.structured_summary ≡ payload.structured_summary
    pub updated : s.updated_at ≡ now
    pub created : s.created_at ≡ elim old [ none ↦ now | some first ↦ first.created_at ]

  summary_of-IsSummary :
      (old : Option CallSummaryModel) (ss : List CallSummaryModel)
      → find (is_summary id) ss ≡ old
      → IsSummary old (summary_of id payload now old)
  unfolding summary_of
  summary_of-IsSummary none ss h = record {
    of_call = eq_refl id;
    text = refl;
    structured = refl;
    updated = refl;
    created = refl;
  }
  summary_of-IsSummary (some s) ss h = record {
    of_call = find-test (is_summary id) ss s h;
    text = refl;
    structured = refl;
    updated = refl;
    created = refl;
  }

  -- A call that was completed is read back as it was returned: the row that was found, with the
  -- outcome, the length, the recording and the time of its end as given, failed or escalated exactly
  -- if the outcome is, and never active; and its summary is read back with the given texts, updated
  -- now, created now or when the call was first summarized.
  pub complete_call-read_back :
      (env : Env) (trace : String) (w : World) (body : Json)
      → (complete_call env id payload org trace now w).0 ≡ ok body
      → let w' = (complete_call env id payload org trace now w).1 in
        (found : CallModel) × (c : CallModel) × (s : CallSummaryModel) × (find
            (is_call id org)
            w.disk.calls
          ≡ some found)
        × IsEnded found c
        × IsSummary (find (is_summary id) w.disk.call_summaries) s
        × (body ≡ serialize_call c)
        × ((get_call id org w').0 ≡ ok body)
        × ((get_call_summary id org w').0 ≡ ok (serialize_call_summary s))
  unfolding complete_call
  complete_call-read_back env trace w body e =
      let (call, is, result) =
        session-commits (end_call env id payload org trace now) serialize_call
          (end_call-Ended env trace w.disk.calls w.disk.call_summaries) w body (refl, refl) e in
      let (found, here, same, ended) = result in
      let w' = (complete_call env id payload org trace now w).1 in
      let body_is = sym is ∙ ap serialize_call same in
      let old = find (is_summary id) w.disk.call_summaries in
      (
        found,
        ended_call found payload now,
        summary_of id payload now old,
        here,
        ended_call-IsEnded found,
        summary_of-IsSummary old w.disk.call_summaries refl,
        body_is,
        get_call-of_found (ended_call found payload now) w' ended.0 ∙ ap ok (sym body_is),
        get_call_summary-of_found (ended_call found payload now) _ w' ended.0 ended.1,
      )
