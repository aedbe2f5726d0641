-- ===== src/Tests/Bookings.antt =====
-- Instances of the theorems on availability and bookings, and tests of both.
use real_voice_agent_free.Prelude.{
  ℕ, ◌+◌, ◌-◌, ◌≤◌, ◌≡◌, refl, true, none, some, [], ◌∷◌, All, length, leb, Stamp, DateTime, aware,
  naive, minutes, hours_long, days_long, arith, map, ◌==◌, if◌then◌else◌,
}
use real_voice_agent_free.Errors.{err, raised, booking_conflict}
use real_voice_agent_free.Env.{Env}
use real_voice_agent_free.Models.{BookingModel, BookingStatus}
use real_voice_agent_free.Session.{
  World, ◌>>=◌, new_id, select, scalar, count_rows, require, insert, commit, session, raise,
}
use real_voice_agent_free.Webhooks.{emit_event, listens, deliver_all}
use real_voice_agent_free.Calls.{get_agent_or_404}
use real_voice_agent_free.Availability.{
  Range, Zones, IsSteady, KeepsInstants, Search, as_utc, resolve_timezone, as_agent_utc,
  parse_business_range, split_once, time_of, int, strip, slot_at, conflict_found, walk, walk_range,
  find_slots, ranges_overlap, visit, walk_ranges, walk_keys, walk_days, business_hour_keys, is_near,
  search_of, near_bookings, build_agent_availability_payload, is_calendar, effective_minutes,
}
use real_voice_agent_free.Availability.Offers.{IsOffered, StartOnce, find_slots-IsOffered}
use real_voice_agent_free.Availability.Bounds.{IsRange, parse_business_range-IsRange}
use real_voice_agent_free.Bookings.{
  BookingCreateRequest, BookingUpdateRequest, create_booking, book, ensure_booking_slot_available,
  refuse_slot, is_conflict, calendar_create, new_booking, as_stored,
}
use real_voice_agent_free.Bookings.Apart.{IsApart-refl}
use real_voice_agent_free.Bookings.Booked.{IsBooked}
use real_voice_agent_free.Bookings.Runs.{create, update, perform, perform_all, perform_all-IsBooked}
use real_voice_agent_free.Tests.World.{env_with, env_with-OrdersRows, accepted, db, world_of, sort}
use real_voice_agent_free.Tests.Agents.{agent}

abbrev nine_to_six : Range
nine_to_six = record { start_hour = 9; start_minute = 0; end_hour = 18; end_minute = 0 }

abbrev env : Env
env = env_with accepted

-- A week lies between the first instant and the start of the year 1, UTC.
abbrev week : ℕ
week = days_long 7

-- Moscow, three hours ahead of UTC, for every name but UTC.
abbrev pub moscow : Zones
moscow = record {
  known = λ name. true;
  to_wall = λ name t. if name == "UTC" then t - week else t + hours_long 3 - week;
  to_utc = λ name wall. if name == "UTC" then wall + week else wall + (week - hours_long 3);
  column_time = λ s. elim s [ aware t ↦ t | naive wall ↦ wall + week ];
  stored = λ s. elim s [ aware t ↦ aware t | naive wall ↦ aware (wall + week) ];
  isoformat = λ t. "0001-01-01T07:00:00+00:00";
  slot_label = λ wall. "0001-01-01 10:00";
}

moscow-IsSteady : IsSteady moscow "Europe/Moscow"
unfolding resolve_timezone
moscow-IsSteady = record { to_utc-add = λ wall d. omega arith }

moscow-as_utc : (s : Stamp) (t : DateTime) → moscow.stored s ≡ aware t → as_utc moscow s ≡ t
unfolding as_utc
moscow-as_utc (aware u) t h = cc
moscow-as_utc (naive wall) t h = cc

moscow-KeepsInstants : KeepsInstants moscow
moscow-KeepsInstants = record { column_time-aware = λ t. refl; as_utc-stored = moscow-as_utc }

parses :
    parse_business_range "09:00-18:30"
    ≡ some (record { start_hour = 9; start_minute = 0; end_hour = 18; end_minute = 30 })
unfolding parse_business_range split_once time_of int strip
parses = refl

parses_loosely :
    parse_business_range " 9 : 5 - 1_8:+30 "
    ≡ some (record { start_hour = 9; start_minute = 5; end_hour = 18; end_minute = 30 })
unfolding parse_business_range split_once time_of int strip
parses_loosely = refl

refuses :
    (parse_business_range "18:00-09:00" ≡ none)
    × (parse_business_range "9-18" ≡ none)
    × (parse_business_range "09:00-24:00" ≡ none)
unfolding parse_business_range split_once time_of int strip
refuses = (refl, refl, refl)

parse_business_range-IsRange_example :
    IsRange (record { start_hour = 9; start_minute = 0; end_hour = 18; end_minute = 30 })
parse_business_range-IsRange_example = parse_business_range-IsRange "09:00-18:30" _ parses

-- Monday, 1 January of the year 1, 10:00 in Moscow
abbrev ten : ℕ
ten = hours_long 10

abbrev ten_utc : ℕ
ten_utc = ten + (week - hours_long 3)

abbrev booking : BookingModel
booking = record {
  id = "bk_1";
  organization_id = "org_default";
  agent_id = "agt_1";
  contact_name = "Ann";
  contact_phone = "+100000";
  service = "cut";
  start_at = aware ten_utc;
  status = BookingStatus.confirmed;
  external_booking_id = none;
  created_at = 4;
  updated_at = 4;
}

abbrev query : Search
query = record {
  timezone = "Europe/Moscow";
  business_hours = ("mon_fri", "09:00-18:00" ∷ []) ∷ [];
  slot_delta = minutes 30;
  reference_local = hours_long 9;
  bookings = booking ∷ [];
  limit = 3;
}

-- 9:00, 9:30 and, after the booking at 10:00, 10:30
three_slots :
    map (λ slot. slot.start_at) (find_slots moscow query 5)
    ≡ (ten_utc - hours_long 1) ∷ (ten_utc - minutes 30) ∷ (ten_utc + minutes 30) ∷ []
unfolding find_slots walk_days walk_keys walk_ranges walk_range walk visit conflict_found slot_at
    ranges_overlap as_agent_utc business_hour_keys parse_business_range split_once time_of int strip
    resolve_timezone
three_slots = refl

find_slots-IsOffered_example :
    All (IsOffered moscow query) (find_slots moscow query 5)
    × (length (find_slots moscow query 5) ≤ 3)
    × StartOnce moscow query (find_slots moscow query 5)
find_slots-IsOffered_example = find_slots-IsOffered moscow query 5

-- A zone that sets its clocks from 2:00 to 3:00 on that Monday.
abbrev summer_time : Zones
summer_time = record moscow {
  to_wall = λ name t. if leb (week + hours_long 2) t then t + hours_long 1 - week else t - week;
  to_utc = λ name wall. if leb (hours_long 3) wall then wall + week - hours_long 1 else wall + week;
}

abbrev half_past_two : ℕ
half_past_two = hours_long 2 + minutes 30

abbrev night_booking : BookingModel
night_booking = record booking { start_at = aware (half_past_two + week) }

abbrev night_query : Search
night_query = record query { bookings = night_booking ∷ night_booking ∷ [] }

abbrev request : BookingCreateRequest
request = record {
  agent_id = "agt_1";
  contact_name = "Bob";
  contact_phone = "+200000";
  service = "cut";
  start_at = aware ten_utc;
}

abbrev start : World
start = world_of (record db { agents = agent ∷ []; bookings = booking ∷ [] })

start-IsBooked : IsBooked (minutes 30) moscow start.disk
start-IsBooked = record {
  apart = ((IsApart-refl (minutes 30) booking, tt), tt);
  steady = (moscow-IsSteady, tt);
}

-- A second booking at 10:00 is refused.
refused_twice :
    (create_booking env moscow request "org_default" "t1" 5 start).0
    ≡ err (raised (booking_conflict "Requested booking slot conflicts with an existing booking"))
unfolding create_booking book ensure_booking_slot_available refuse_slot is_conflict session
    get_agent_or_404 build_agent_availability_payload near_bookings is_near search_of
    effective_minutes is_calendar find_slots walk_days walk_keys walk_ranges walk_range walk visit
    conflict_found slot_at ranges_overlap as_agent_utc as_utc business_hour_keys
    parse_business_range split_once time_of int strip resolve_timezone select scalar count_rows
    require ◌>>=◌ raise sort
refused_twice = refl

-- Moscow, with a database that gives back what the UTC clock showed, without the zone.
abbrev sqlite : Zones
sqlite = record moscow {
  stored = λ s. elim s [ aware t ↦ naive (t - week) | naive wall ↦ naive wall ];
}

-- With SQLite the same slot is booked a second time.
booked_twice :
    map
      (λ (b : BookingModel). b.start_at)
      (perform_all env sqlite
        (create request "org_default" "t1" 5 ∷ create request "org_default" "t2" 6 ∷ [])
        (world_of (record db { agents = agent ∷ []; webhook_subscriptions = [] }))).disk.bookings
    ≡ naive (hours_long 7) ∷ naive (hours_long 7) ∷ []
unfolding perform_all perform as_stored create_booking book ensure_booking_slot_available session
    get_agent_or_404 build_agent_availability_payload near_bookings is_near search_of
    effective_minutes is_calendar find_slots walk_days walk_keys walk_ranges walk_range walk visit
    conflict_found slot_at ranges_overlap as_agent_utc as_utc business_hour_keys
    parse_business_range split_once time_of int strip resolve_timezone select scalar count_rows
    require ◌>>=◌ sort calendar_create new_id insert commit emit_event listens deliver_all
    new_booking
booked_twice = refl

-- In the night in which the clocks are set forward, a slot that is booked is offered: 2:00, 2:30
-- and, again as an hour later, 2:00.
offered_again :
    map
      (λ slot. slot.start_at)
      (find_slots summer_time
        (record query {
          business_hours = ("daily", "02:00-06:00" ∷ []) ∷ [];
          reference_local = hours_long 1;
          bookings = night_booking ∷ [];
        })
        1)
    ≡ (half_past_two + week - minutes 30)
      ∷ (half_past_two + week)
      ∷ (half_past_two + week - minutes 30)
      ∷ []
unfolding find_slots walk_days walk_keys walk_ranges walk_range walk visit conflict_found slot_at
    ranges_overlap as_agent_utc business_hour_keys parse_business_range split_once time_of int strip
    resolve_timezone
offered_again = refl

abbrev later : BookingCreateRequest
later = record request { start_at = aware (ten_utc + minutes 30) }

abbrev move : BookingUpdateRequest
move = record {
  contact_name = none;
  contact_phone = none;
  service = none;
  start_at = some (aware (ten_utc + minutes 60));
  status = some BookingStatus.rescheduled;
}

-- A booking that is refused, one for the next slot, and one that is moved.
perform_all-IsBooked_example :
    IsBooked
      (minutes 30)
      moscow
      (perform_all env moscow
        (create request "org_default" "t1" 5
          ∷ create later "org_default" "t2" 6
          ∷ update "bk_1" move "org_default" "t3" 7
          ∷ [])
        start).disk
perform_all-IsBooked_example =
    perform_all-IsBooked env moscow (env_with-OrdersRows accepted) moscow-KeepsInstants
      (omega arith)
      (create request "org_default" "t1" 5
        ∷ create later "org_default" "t2" 6
        ∷ update "bk_1" move "org_default" "t3" 7
        ∷ [])
      start start-IsBooked
