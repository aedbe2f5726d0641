-- ===== src/Bookings/Methods.antt =====
-- The methods of `AgentStore` (store.py) on bookings. A body that ends in a commit stands by itself.
use real_voice_agent_free.Prelude.{
  ℕ, String, ◌==◌, none, some, List, [], ◌∷◌, map, page, or_else, text_or, DateTime,
}
use real_voice_agent_free.Json.{Json, null, str, dict}
use real_voice_agent_free.Env.{Env, whole, limited}
use real_voice_agent_free.Models.{AgentModel, BookingModel, BookingStatus}
use real_voice_agent_free.Db.{bookings}
use real_voice_agent_free.Serialize.{serialize_booking}
use real_voice_agent_free.Serialize.Values.{booking_status_text}
use real_voice_agent_free.Session.{
  M, pure, ◌>>=◌, ◌>>◌, new_id, select, count_rows, insert, save, commit, session,
}
use real_voice_agent_free.Webhooks.{emit_event}
use real_voice_agent_free.Calls.{get_agent_or_404, runtime_event}
use real_voice_agent_free.Availability.{Zones}
use real_voice_agent_free.Bookings.Defs.{
  get_booking_or_404, BookingCreateRequest, BookingUpdateRequest, CalendarBookingResult,
  calendar_create, calendar_update, ensure_booking_slot_available,
}

unfoldable pub list_bookings : Env → String → M (List Json)
list_bookings env organization_id = session (do
  found ← select bookings (λ b. b.organization_id == organization_id)
  pure (map serialize_booking (env.order_desc whole BookingModel (λ b. b.created_at) found)))

unfoldable pub list_bookings_paginated : Env → String → ℕ → ℕ → M (List Json × ℕ)
list_bookings_paginated env organization_id limit offset = session (do
  total ← count_rows bookings (λ b. b.organization_id == organization_id)
  found ← select bookings (λ b. b.organization_id == organization_id)
  pure (
    map serialize_booking (
        page limit offset
          (env.order_desc (limited limit offset) BookingModel (λ b. b.created_at) found)),
    total,
  ))

unfoldable pub get_booking : String → String → M Json
get_booking booking_id organization_id =
    session
      (do booking ← get_booking_or_404 booking_id organization_id; pure (serialize_booking booking))

unfoldable pub new_booking :
    String → BookingCreateRequest → String → CalendarBookingResult → DateTime → BookingModel
new_booking id payload organization_id calendar_result now = record {
  id = id;
  organization_id = organization_id;
  agent_id = payload.agent_id;
  contact_name = payload.contact_name;
  contact_phone = payload.contact_phone;
  service = payload.service;
  start_at = payload.start_at;
  status = calendar_result.status;
  external_booking_id = some calendar_result.external_booking_id;
  created_at = now;
  updated_at = now;
}

-- The row as it is read back: `session.refresh`, and every later session.
unfoldable pub as_stored : Zones → BookingModel → BookingModel
as_stored z b = record b { start_at = z.stored b.start_at }

-- the fields of both events
abbrev booking_fields : Zones → BookingModel → List (String × Json) → List (String × Json)
booking_fields z b rest =
    ("booking_id", str b.id)
    ∷ ("call_id", null)
    ∷ ("contact", dict (("name", str b.contact_name) ∷ ("phone", str b.contact_phone) ∷ []))
    ∷ ("service", str b.service)
    ∷ ("start_at", str (z.isoformat b.start_at))
    ∷ ("agent_id", str b.agent_id)
    ∷ rest

unfoldable pub booking_created : Zones → BookingModel → Json
booking_created z b = dict (booking_fields z b [])

unfoldable pub booking_updated : Zones → BookingModel → Json
booking_updated z b =
    dict (booking_fields z b (("status", str (booking_status_text b.status)) ∷ []))

unfoldable pub book :
    Env → Zones → BookingCreateRequest → String → String → DateTime → M BookingModel
book env z payload organization_id trace_id now = do
  agent ← get_agent_or_404 payload.agent_id organization_id
  ensure_booking_slot_available env z agent organization_id payload.start_at now none
  calendar_result ← calendar_create env payload.agent_id
  id ← new_id env "bk_" 8
  let booking = new_booking id payload organization_id calendar_result now
  insert bookings (as_stored z booking)
  emit_event env
      (runtime_event organization_id "booking.created" trace_id now (booking_created z booking))
  pure (as_stored z booking)

unfoldable pub create_booking :
    Env → Zones → BookingCreateRequest → String → String → DateTime → M Json
create_booking env z payload organization_id trace_id now = session (do
  booking ← book env z payload organization_id trace_id now
  commit
  pure (serialize_booking booking))

-- The booking with the requested changes, before the calendar has answered.
unfoldable pub changed_booking : BookingModel → BookingUpdateRequest → BookingModel
changed_booking b payload = record b {
  contact_name = text_or payload.contact_name b.contact_name;
  contact_phone = text_or payload.contact_phone b.contact_phone;
  service = text_or payload.service b.service;
  start_at = or_else payload.start_at b.start_at;
  status = or_else payload.status b.status;
}

-- `if status != "cancelled"`
unfoldable pub ensure_unless_cancelled :
    Env → Zones → AgentModel → String → BookingModel → DateTime → BookingStatus → M Unit
ensure_unless_cancelled env z agent organization_id changed now BookingStatus.cancelled = pure tt
ensure_unless_cancelled env z agent organization_id changed now _ =
    ensure_booking_slot_available env z agent organization_id changed.start_at now (some changed.id)

unfoldable pub settled_booking : BookingModel → CalendarBookingResult → DateTime → BookingModel
settled_booking changed calendar_result now = record changed {
  status = calendar_result.status;
  external_booking_id = some calendar_result.external_booking_id;
  updated_at = now;
}

unfoldable pub rebook :
    Env → Zones → String → BookingUpdateRequest → String → String → DateTime → M BookingModel
rebook env z booking_id payload organization_id trace_id now = do
  found ← get_booking_or_404 booking_id organization_id
  agent ← get_agent_or_404 found.agent_id organization_id
  let changed = changed_booking found payload
  ensure_unless_cancelled env z agent organization_id changed now changed.status
  calendar_result ← calendar_update env changed.agent_id changed.external_booking_id changed.status
  let booking = settled_booking changed calendar_result now
  save bookings (as_stored z booking)
  emit_event env
      (runtime_event organization_id "booking.updated" trace_id now (booking_updated z booking))
  pure (as_stored z booking)

unfoldable pub update_booking :
    Env → Zones → String → BookingUpdateRequest → String → String → DateTime → M Json
update_booking env z booking_id payload organization_id trace_id now = session (do
  booking ← rebook env z booking_id payload organization_id trace_id now
  commit
  pure (serialize_booking booking))
