-- ===== src/Tests/Webhooks.antt =====
-- Instances of the theorems on webhooks.
use real_voice_agent_free.Prelude.{
  ◌+◌, ◌≤◌, min, String, ◌==◌, ◌≡◌, refl, Option, none, some, List, [], ◌∷◌, filter, find, count,
  length,
}
use real_voice_agent_free.Json.{Json, str, serializable, dict}
use real_voice_agent_free.Errors.{type_error, key_error, Result, ok, err}
use real_voice_agent_free.Env.{Env, Post, HttpOutcome, response}
use real_voice_agent_free.Models.{DeliveryStatus}
use real_voice_agent_free.Db.{empty_db}
use real_voice_agent_free.Serialize.{serialize_event}
use real_voice_agent_free.Session.{World, ◌>>=◌, select, get, insert, save, commit, session, new_id}
use real_voice_agent_free.Session.Keeps.{Keeps}
use real_voice_agent_free.Dispatcher.{deliver}
use real_voice_agent_free.Dispatcher.Laws.{deliver-serialize_event, deliver-plain, Ends}
use real_voice_agent_free.Webhooks.{
  Emission, Report, next_webhook_attempt_at, settle, emit_event, listens, is_due, batch_size,
  process_webhook_deliveries, check_overflow, attempt_webhook_delivery, process_all, process_one,
  process_found, dispatch, tally, deliver_all, deliver_to, subscribed,
}
use real_voice_agent_free.Webhooks.Rows.{RowsAreValid}
use real_voice_agent_free.Webhooks.Queue.{process_webhook_deliveries-report}
use real_voice_agent_free.Webhooks.QueueRows.{process_webhook_deliveries-Valid}
use real_voice_agent_free.Webhooks.Untouched.{
  process_webhook_deliveries-untouched, process_webhook_deliveries-rolls_back,
}
use real_voice_agent_free.Webhooks.Fanout.{is_called, FannedOut, with_event, emit_event-FannedOut}
use real_voice_agent_free.Webhooks.Commands.{
  create, emit, process, run as run_calls, run-RowsAreValid,
}
use real_voice_agent_free.Tests.World.{
  env_with, env_with-OrdersRows, accepted, refused, event, hook, delivery, db, world_of, sort,
}

abbrev http : List Post → Post → HttpOutcome
http posts post = response 204 ""

abbrev sign : String → Json → String
sign secret body = secret

deliver-serialize_event_example :
    deliver http sign "https://example.org/hook" "whsec_1" (serialize_event event) []
    ≡ (err type_error, [])
deliver-serialize_event_example =
    deliver-serialize_event http sign event "https://example.org/hook" "whsec_1" []

abbrev env : Env
env = env_with refused

abbrev run : Result Report × World
run = process_webhook_deliveries env "org_default" 5 none (world_of db)

abbrev report_of : Result Report → Report
report_of (ok r) = r
report_of (err e) = record {
  processed = 0;
  delivered = 0;
  retry_scheduled = 0;
  failed = 0;
  items = [];
}

run-ok : run.0 ≡ ok (report_of run.0)
unfolding process_webhook_deliveries process_all process_one process_found check_overflow
    attempt_webhook_delivery dispatch settle next_webhook_attempt_at batch_size is_due session
    select get save commit sort ◌>>=◌
run-ok = refl

run-counts : (report_of run.0).retry_scheduled ≡ 1
unfolding process_webhook_deliveries process_all process_one process_found check_overflow
    attempt_webhook_delivery dispatch settle next_webhook_attempt_at batch_size is_due tally session
    select get save commit sort ◌>>=◌
run-counts = refl

process_webhook_deliveries-report_example :
    ((report_of run.0).processed
      ≡ (report_of run.0).delivered + (report_of run.0).retry_scheduled + (report_of run.0).failed)
    × ((report_of run.0).processed ≡ length (report_of run.0).items)
    × ((report_of run.0).processed
        ≡ min
            (batch_size env.settings none)
            (count (is_due "org_default" 5 (hook ∷ [])) (delivery ∷ [])))
    × ((report_of run.0).processed ≤ 100)
process_webhook_deliveries-report_example =
    process_webhook_deliveries-report env (env_with-OrdersRows refused) "org_default" 5 none
      (world_of db) (report_of run.0) run-ok

process_webhook_deliveries-Valid_example :
    Keeps (RowsAreValid env) (process_webhook_deliveries env "org_default" 5 none)
process_webhook_deliveries-Valid_example =
    process_webhook_deliveries-Valid env (env_with-OrdersRows refused) "org_default" 5 none

-- Another tenant's run of the queue leaves the delivery alone.
process_webhook_deliveries-untouched_example :
    find
      (λ d. d.id == "wd_1")
      (process_webhook_deliveries env "org_other" 5 none (world_of db)).1.disk.webhook_deliveries
    ≡ some delivery
unfolding is_due
process_webhook_deliveries-untouched_example =
    process_webhook_deliveries-untouched env (env_with-OrdersRows refused) "org_other" 5 none
      (world_of db) "wd_1" refl

-- With the dispatcher of webhooks.py the run raises TypeError.
abbrev real_env : Env
real_env = record env { dispatcher = deliver http sign }

real_run-fails :
    (process_webhook_deliveries real_env "org_default" 5 none (world_of db)).0 ≡ err type_error
unfolding process_webhook_deliveries process_all process_one process_found check_overflow
    attempt_webhook_delivery dispatch settle next_webhook_attempt_at batch_size is_due session
    select get save commit sort ◌>>=◌ deliver serialize_event serializable
real_run-fails = refl

process_webhook_deliveries-rolls_back_example :
    (process_webhook_deliveries real_env "org_default" 5 none (world_of db)).1.disk ≡ db
process_webhook_deliveries-rolls_back_example =
    process_webhook_deliveries-rolls_back real_env "org_default" 5 none (world_of db) type_error
      real_run-fails

abbrev emission : Emission
emission = record {
  organization_id = "org_default";
  event_type = "call.ended";
  trace_id = "t2";
  occurred_at = 9;
  source = "runtime";
  payload = dict [];
  only_webhook_id = none;
}

abbrev emitted : Result (String × Option (String × DeliveryStatus)) × World
emitted = emit_event (env_with accepted) emission (world_of db)

emitted-ok : emitted.0 ≡ ok ("evt_00000000aa", some ("wd_11111111", DeliveryStatus.delivered))
unfolding emit_event deliver_all deliver_to subscribed listens check_overflow
    attempt_webhook_delivery dispatch settle next_webhook_attempt_at select insert save new_id ◌>>=◌
    serialize_event
emitted-ok = refl

emit_event-FannedOut_example :
    FannedOut
      (env_with accepted)
      emission
      "evt_00000000aa"
      (filter (is_called emission) (hook ∷ []))
      (with_event db "evt_00000000aa" emission)
      emitted.1.view
      []
      emitted.1.posts
emit_event-FannedOut_example =
    emit_event-FannedOut (env_with accepted) emission (world_of db) "evt_00000000aa"
      (some ("wd_11111111", DeliveryStatus.delivered)) emitted-ok

abbrev ping : Json
ping = dict (("event_id", str "evt_1") ∷ ("event_type", str "ping") ∷ [])

deliver-plain_example :
    (post : Post) × (post.target_url ≡ "https://example.org/hook")
    × (post.signature ≡ "whsec_1")
    × (post.body ≡ ping)
    × (post.event_type ≡ "ping")
    × (post.event_id ≡ "evt_1")
    × Ends (http [] post) post [] (deliver http sign "https://example.org/hook" "whsec_1" ping [])
unfolding serializable
deliver-plain_example =
    deliver-plain http sign ping "https://example.org/hook" "whsec_1" "ping" "evt_1" [] refl refl
      refl

no_type :
    deliver http sign "https://example.org/hook" "whsec_1" (dict []) []
    ≡ (err (key_error "event_type"), [])
unfolding deliver serializable
no_type = refl

run-RowsAreValid_example : RowsAreValid env (
    run_calls env
      (create "https://example.org" ("*" ∷ []) "org_default" 1
        ∷ emit emission
        ∷ process "org_default" 50000000 none
        ∷ [])
      (world_of empty_db))
run-RowsAreValid_example =
    run-RowsAreValid env (env_with-OrdersRows refused)
      (create "https://example.org" ("*" ∷ []) "org_default" 1
        ∷ emit emission
        ∷ process "org_default" 50000000 none
        ∷ [])
      (world_of empty_db) refl refl
