-- ===== src/Bookings/Runs.antt =====
-- Sequences of the methods on bookings (store.py): no slot of an agent is booked twice.
use real_voice_agent_free.Prelude.{
  ◌≤◌, String, Option, none, some, List, [], ◌∷◌, DateTime, minutes, days_long,
}
use real_voice_agent_free.Json.{Json}
use real_voice_agent_free.Env.{Env, OrdersRows}
use real_voice_agent_free.Models.{AgentModel, BookingModel, BookingStatus}
use real_voice_agent_free.Db.{Db}
use real_voice_agent_free.Serialize.{serialize_booking}
use real_voice_agent_free.Session.{World, M}
use real_voice_agent_free.Session.Keeps.{Keeps}
use real_voice_agent_free.Session.Frame.{DiskIs, disk_rules}
use real_voice_agent_free.Session.Does.{session-preserves}
use real_voice_agent_free.Webhooks.Emits.{DiskIs-emit_event}
use real_voice_agent_free.Calls.Runs.{DiskIs-get_agent}
use real_voice_agent_free.Availability.{Zones, KeepsInstants}
use real_voice_agent_free.Bookings.{
  BookingCreateRequest, BookingUpdateRequest, get_booking_or_404, calendar_create, external_id_of,
  calendar_update, book, create_booking, ensure_unless_cancelled, rebook, update_booking,
}
use real_voice_agent_free.Bookings.Ensure.{ensure-Keeps}
use real_voice_agent_free.Bookings.Booked.{IsBooked}
use real_voice_agent_free.Bookings.Kept.{book-Booked, rebook-Booked}

module _ (env : Env) (z : Zones) (committed : Db) where
  DiskIs-calendar_create : (id : String) → Keeps (DiskIs committed) (calendar_create env id)
  unfolding calendar_create
  DiskIs-calendar_create id = search disk_rules

  DiskIs-external_id :
      (id : String) (old : Option String) → Keeps (DiskIs committed) (external_id_of env id old)
  unfolding external_id_of
  DiskIs-external_id id none = search disk_rules
  DiskIs-external_id id (some String.[]) = search disk_rules
  DiskIs-external_id id (some (String.◌∷◌ c s)) = search disk_rules

  DiskIs-calendar_update :
      (id : String) (old : Option String) (status : BookingStatus)
      → Keeps (DiskIs committed) (calendar_update env id old status)
  unfolding calendar_update
  DiskIs-calendar_update id old status = search (disk_rules, DiskIs-external_id)

  DiskIs-unless_cancelled :
      (agent : AgentModel) (org : String) (b : BookingModel) (now : DateTime)
      (status : BookingStatus)
      → Keeps (DiskIs committed) (ensure_unless_cancelled env z agent org b now status)
  unfolding ensure_unless_cancelled
  DiskIs-unless_cancelled agent org b now BookingStatus.cancelled = search disk_rules
  DiskIs-unless_cancelled agent org b now _ =
      ensure-Keeps env z agent org b.start_at now (some b.id)

  DiskIs-book :
      (payload : BookingCreateRequest) (org trace : String) (now : DateTime)
      → Keeps (DiskIs committed) (book env z payload org trace now)
  unfolding book
  DiskIs-book payload org trace now =
      search
        (
          disk_rules,
          DiskIs-get_agent env committed,
          ensure-Keeps env z,
          DiskIs-calendar_create,
          DiskIs-emit_event env committed,
        )
        depth 16

  DiskIs-get_booking : (id org : String) → Keeps (DiskIs committed) (get_booking_or_404 id org)
  unfolding get_booking_or_404
  DiskIs-get_booking id org = search disk_rules

  DiskIs-rebook :
      (id : String) (payload : BookingUpdateRequest) (org trace : String) (now : DateTime)
      → Keeps (DiskIs committed) (rebook env z id payload org trace now)
  unfolding rebook
  DiskIs-rebook id payload org trace now =
      search
        (
          disk_rules,
          DiskIs-get_booking,
          DiskIs-get_agent env committed,
          DiskIs-unless_cancelled,
          DiskIs-calendar_update,
          DiskIs-emit_event env committed,
        )
        depth 16

-- The calls of the methods that change bookings.
pub data BookingStep : Type 0 where
  create : BookingCreateRequest → String → String → DateTime → BookingStep
  update : String → BookingUpdateRequest → String → String → DateTime → BookingStep

unfoldable pub perform : Env → Zones → BookingStep → M Json
perform env z (create payload org trace now) = create_booking env z payload org trace now
perform env z (update id payload org trace now) = update_booking env z id payload org trace now

-- One after the other, whether they return or raise.
unfoldable pub perform_all : Env → Zones → List BookingStep → World → World
perform_all env z [] w = w
perform_all env z (step ∷ steps) w = perform_all env z steps (perform env z step w).1

module _ (env : Env) (z : Zones) (orders : OrdersRows env) (compares : KeepsInstants z)
    (short : minutes env.settings.booking_slot_minutes ≤ days_long 2) where
  perform-IsBooked :
      (step : BookingStep) (w : World)
      → IsBooked (minutes env.settings.booking_slot_minutes) z w.disk
      → IsBooked (minutes env.settings.booking_slot_minutes) z (perform env z step w).1.disk
  unfolding perform create_booking update_booking
  perform-IsBooked (create payload org trace now) w h =
      session-preserves (book env z payload org trace now) serialize_booking
        (book-Booked env z orders compares short payload org trace now)
        (λ d. DiskIs-book env z d payload org trace now) w h
  perform-IsBooked (update id payload org trace now) w h =
      session-preserves (rebook env z id payload org trace now) serialize_booking
        (rebook-Booked env z orders compares short id payload org trace now)
        (λ d. DiskIs-rebook env z d id payload org trace now) w h

  -- After any calls of create_booking and update_booking, whether they return or raise, no two
  -- different confirmed or rescheduled bookings of one agent overlap whose stored starts have a time
  -- zone, if none did at first. PostgreSQL gives back every start with a time zone, SQLite none, and
  -- of bookings without one nothing is said. The agents' time zones set no clocks back or forward,
  -- and the length of a slot is at most two days.
  pub perform_all-IsBooked :
      (steps : List BookingStep) (w : World)
      → IsBooked (minutes env.settings.booking_slot_minutes) z w.disk
      → IsBooked (minutes env.settings.booking_slot_minutes) z (perform_all env z steps w).disk
  unfolding perform_all
  perform_all-IsBooked [] w h = h
  perform_all-IsBooked (step ∷ steps) w h =
      perform_all-IsBooked steps (perform env z step w).1 (perform-IsBooked step w h)
