-- ===== src/Bookings/Defs.antt =====
-- Bookings (apps/api/src/voiceagent_api/store.py): the requests of schemas.py, the calendar of
-- adapters/calendar.py, and the check that a slot is free.
use real_voice_agent_free.Prelude.{
  ℕ, ◌+◌, ◌-◌, String, ◌==◌, Bool, not, ◌&&◌, Option, some, List, [], ◌∷◌, any, leb, ltb, nat_eq,
  or_else, concat, DateTime, Stamp, aware, minutes, if◌then◌else◌,
}
use real_voice_agent_free.Errors.{not_found, booking_conflict}
use real_voice_agent_free.Env.{Env}
use real_voice_agent_free.Models.{AgentModel, BookingModel, BookingStatus}
use real_voice_agent_free.Db.{bookings}
use real_voice_agent_free.Session.{M, pure, raise, ◌>>=◌, require, new_id, scalar, count_rows}
use real_voice_agent_free.Availability.{
  Zones, Slot, Asked, as_utc, is_active, build_agent_availability_payload,
}

unfoldable pub get_booking_or_404 : String → String → M BookingModel
get_booking_or_404 booking_id organization_id = do
  booking ← scalar bookings (λ b. b.id == booking_id && b.organization_id == organization_id)
  require booking (not_found "Booking not found")

pub record BookingCreateRequest : Type 0 where
  pub agent_id : String
  pub contact_name : String
  pub contact_phone : String
  pub service : String
  pub start_at : Stamp

pub record BookingUpdateRequest : Type 0 where
  pub contact_name : Option String
  pub contact_phone : Option String
  pub service : Option String
  pub start_at : Option Stamp
  pub status : Option BookingStatus

pub record CalendarBookingResult : Type 0 where
  pub external_booking_id : String
  pub status : BookingStatus

-- class StubCalendarAdapter, of which only the agent, the id and the status of a request matter
unfoldable pub calendar_create : Env → String → M CalendarBookingResult
calendar_create env agent_id = do
  external_id ← new_id env (concat ("cal_" ∷ agent_id ∷ "_" ∷ [])) 10
  pure (record { external_booking_id = external_id; status = BookingStatus.confirmed })

unfoldable pub external_id_of : Env → String → Option String → M String
external_id_of env agent_id (some (String.◌∷◌ c s)) = pure (String.◌∷◌ c s)
external_id_of env agent_id _ = new_id env (concat ("cal_" ∷ agent_id ∷ "_" ∷ [])) 10

unfoldable pub calendar_update :
    Env → String → Option String → BookingStatus → M CalendarBookingResult
calendar_update env agent_id external_booking_id status = do
  external_id ← external_id_of env agent_id external_booking_id
  pure (record { external_booking_id = external_id; status = status })

abbrev pub slot_query : AgentModel → String → DateTime → DateTime → ℕ → Option String → Asked
slot_query agent organization_id requested_start now slot_minutes exclude_booking_id = record {
  agent = agent;
  organization_id = organization_id;
  generated_at = now;
  start_at = some (aware requested_start);
  days = 1;
  slot_minutes = some slot_minutes;
  limit = 48;
  exclude_booking_id = exclude_booking_id;
}

-- The WHERE clause of the query that tells the two refusals apart.
unfoldable pub is_conflict :
    Zones → AgentModel → String → DateTime → ℕ → Option String → BookingModel → Bool
is_conflict z agent organization_id requested_start slot_delta exclude_booking_id b =
    b.organization_id == organization_id
    && (b.agent_id == agent.id)
    && is_active b.status
    && leb (requested_start - slot_delta) (z.column_time b.start_at)
    && leb (z.column_time b.start_at) (requested_start + slot_delta)
    && not (b.id == or_else exclude_booking_id "")

unfoldable pub refuse_slot : Env → Zones → AgentModel → String → DateTime → Option String → M Unit
refuse_slot env z agent organization_id requested_start exclude_booking_id = do
  conflict ← count_rows bookings (
      is_conflict z agent organization_id requested_start
        (minutes env.settings.booking_slot_minutes) exclude_booking_id)
  if ltb 0 conflict
      then raise (booking_conflict "Requested booking slot conflicts with an existing booking")
      else raise (booking_conflict "Requested booking time is outside configured business hours")

abbrev pub offers : DateTime → List Slot → Bool
offers requested_start slots = any (λ slot. nat_eq slot.start_at requested_start) slots

unfoldable pub ensure_booking_slot_available :
    Env → Zones → AgentModel → String → Stamp → DateTime → Option String → M Unit
ensure_booking_slot_available env z agent organization_id start_at now exclude_booking_id = do
  availability ← build_agent_availability_payload env z (
      slot_query agent organization_id (as_utc z start_at) now env.settings.booking_slot_minutes
        exclude_booking_id)
  if offers (as_utc z start_at) availability.slots
      then pure tt
      else refuse_slot env z agent organization_id (as_utc z start_at) exclude_booking_id
