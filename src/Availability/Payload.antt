-- ===== src/Availability/Payload.antt =====
-- The availability of an agent (store.py, `_build_agent_availability_payload`,
-- `_serialize_availability_slot`, `get_agent_availability`).
use real_voice_agent_free.Prelude.{
  ℕ, ◌+◌, ◌-◌, max, String, ◌==◌, Bool, true, false, not, ◌&&◌, Option, none, some, List, [], ◌∷◌,
  leb, ltb, nat_eq, or_else, DateTime, Stamp, aware, minutes, days_long, if◌then◌else◌,
}
use real_voice_agent_free.Json.{Json, str, dict}
use real_voice_agent_free.Env.{Env, whole, Settings}
use real_voice_agent_free.Models.{AgentModel, BookingModel, BookingStatus, IntegrationModel}
use real_voice_agent_free.Db.{bookings, integrations}
use real_voice_agent_free.Session.{M, pure, ◌>>=◌, select, count_rows, session}
use real_voice_agent_free.Calls.{get_agent_or_404}
use real_voice_agent_free.Availability.Clocks.{Zones, as_utc, resolve_timezone}
use real_voice_agent_free.Availability.Slots.{Slot, Search, find_slots}

-- The dictionary that `_build_agent_availability_payload` returns.
pub record Availability : Type 0 where
  pub agent_id : String
  pub timezone : String
  pub slot_minutes : ℕ
  pub calendar_connected : Bool
  pub source : String
  pub generated_at : DateTime
  pub slots : List Slot

-- `slot_minutes or settings.booking_slot_minutes`
unfoldable pub effective_minutes : Settings → Option ℕ → ℕ
effective_minutes settings slot_minutes =
    if nat_eq (or_else slot_minutes 0) 0
    then settings.booking_slot_minutes
    else or_else slot_minutes 0

-- `BookingModel.status.in_(("confirmed", "rescheduled"))`
abbrev pub is_active : BookingStatus → Bool
is_active BookingStatus.confirmed = true
is_active BookingStatus.rescheduled = true
is_active BookingStatus.cancelled = false

-- An id that is `None` or empty excludes nothing.
abbrev pub is_excluded : Option String → BookingModel → Bool
is_excluded none b = false
is_excluded (some id) b = not (id == "") && b.id == id

-- The WHERE clause of the bookings query: the bookings of the agent that start between two instants.
-- A reference within a slot of the year 1, for which the subtraction overflows, is not modelled.
unfoldable pub is_near :
    Zones → AgentModel → String → DateTime → DateTime → Option String → BookingModel → Bool
is_near z agent organization_id from_utc to_utc exclude_booking_id b =
    b.organization_id == organization_id
    && (b.agent_id == agent.id)
    && is_active b.status
    && leb from_utc (z.column_time b.start_at)
    && leb (z.column_time b.start_at) to_utc
    && not (is_excluded exclude_booking_id b)

unfoldable pub is_calendar : String → IntegrationModel → Bool
is_calendar organization_id i =
    i.organization_id == organization_id && (i.provider == "calendar") && i.status == "connected"

-- The parameters of the method, beside the session.
pub record Asked : Type 0 where
  pub agent : AgentModel
  pub organization_id : String
  pub generated_at : DateTime
  pub start_at : Option Stamp
  pub days : ℕ
  pub slot_minutes : Option ℕ
  pub limit : ℕ
  pub exclude_booking_id : Option String

abbrev pub reference_utc : Zones → Asked → DateTime
reference_utc z a = as_utc z (or_else a.start_at (aware a.generated_at))

unfoldable pub search_of : Env → Zones → Asked → List BookingModel → Search
search_of env z a found = record {
  timezone = a.agent.timezone;
  business_hours = a.agent.business_hours;
  slot_delta = minutes (effective_minutes env.settings a.slot_minutes);
  reference_local = z.to_wall (resolve_timezone z a.agent.timezone) (reference_utc z a);
  bookings = found;
  limit = max 1 a.limit;
}

unfoldable pub near_bookings : Env → Zones → Asked → M (List BookingModel)
near_bookings env z a = do
  found ← select bookings (
      is_near z a.agent a.organization_id
        (reference_utc z a - minutes (effective_minutes env.settings a.slot_minutes))
        (reference_utc z a + days_long (max 1 a.days + 1)) a.exclude_booking_id)
  pure (env.order_asc whole BookingModel (λ b. z.column_time b.start_at) found)

unfoldable pub build_agent_availability_payload : Env → Zones → Asked → M Availability
build_agent_availability_payload env z a = do
  found ← near_bookings env z a
  connected ← count_rows integrations (is_calendar a.organization_id)
  pure (record {
    agent_id = a.agent.id;
    timezone = a.agent.timezone;
    slot_minutes = effective_minutes env.settings a.slot_minutes;
    calendar_connected = ltb 0 connected;
    source = "internal_schedule";
    generated_at = a.generated_at;
    slots = find_slots z (search_of env z a found) (max 1 a.days);
  })

unfoldable pub serialize_availability_slot : Zones → Slot → Json
serialize_availability_slot z slot = dict (
    ("start_at", str (z.isoformat (aware slot.start_at)))
    ∷ ("end_at", str (z.isoformat (aware slot.end_at)))
    ∷ ("local_label", str slot.local_label)
    ∷ [])

-- `now` is the reading of the clock, `datetime.now(UTC)`.
unfoldable pub get_agent_availability :
    Env → Zones → String → String → Option Stamp → ℕ → Option ℕ → ℕ → DateTime → M Availability
get_agent_availability env z agent_id organization_id start_at days slot_minutes limit now =
    session (do
      agent ← get_agent_or_404 agent_id organization_id
      build_agent_availability_payload env z (record {
        agent = agent;
        organization_id = organization_id;
        generated_at = now;
        start_at = start_at;
        days = days;
        slot_minutes = slot_minutes;
        limit = limit;
        exclude_booking_id = none;
      }))
