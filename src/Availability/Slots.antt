-- ===== src/Availability/Slots.antt =====
-- The slots of an agent (store.py, the loops of `_build_agent_availability_payload`).
use real_voice_agent_free.Prelude.{
  ℕ, zero, suc, ◌+◌, ◌-◌, ◌*◌, ◌/◌, ◌%◌, String, ◌==◌, Bool, true, false, ◌&&◌, none, some, List,
  [], ◌∷◌, ◌++◌, any, length, ltb, leb, nat_eq, DateTime, BusinessHours, minutes, hours_long,
  days_long, if◌then◌else◌,
}
use real_voice_agent_free.Models.{BookingModel}
use real_voice_agent_free.Availability.Clocks.{Zones, as_agent_utc, resolve_timezone}
use real_voice_agent_free.Availability.Hours.{Range, business_hour_keys, parse_business_range}

pub record Slot : Type 0 where
  pub start_at : DateTime
  pub end_at : DateTime
  pub local_label : String

-- What the loops read: the agent's time zone and hours, the length of a slot, the local time from
-- which slots are offered, the bookings that were found, and how many slots are wanted.
pub record Search : Type 0 where
  pub timezone : String
  pub business_hours : BusinessHours
  pub slot_delta : ℕ
  pub reference_local : ℕ
  pub bookings : List BookingModel
  pub limit : ℕ

-- The slots so far, and the local starts of those. Two starts in a zone have one `isoformat` only
-- if they are the same.
pub record Found : Type 0 where
  pub slots : List Slot
  pub seen : List ℕ

unfoldable pub ranges_overlap : DateTime → DateTime → DateTime → DateTime → Bool
ranges_overlap start_a end_a start_b end_b = ltb start_a end_b && ltb start_b end_a

-- `business_hours.get(key, [])`
abbrev pub hours_for : String → BusinessHours → List String
hours_for key [] = []
hours_for key ((k, ranges) ∷ rest) = if k == key then ranges else hours_for key rest

module _ (z : Zones) (q : Search) where
  abbrev pub zone : String
  zone = resolve_timezone z q.timezone

  -- the slot that starts at a local time
  unfoldable pub slot_at : ℕ → Slot
  slot_at slot_cursor = record {
    start_at = z.to_utc zone slot_cursor;
    end_at = z.to_utc zone (slot_cursor + q.slot_delta);
    local_label = z.slot_label slot_cursor;
  }

  -- the loop that looks for a conflict
  unfoldable pub conflict_found : Slot → Bool
  conflict_found slot =
      any
        (λ b.
          let booking_start_utc = as_agent_utc z b.start_at q.timezone in
          ranges_overlap slot.start_at slot.end_at booking_start_utc
            (booking_start_utc + q.slot_delta))
        q.bookings

  abbrev pub offer : ℕ → Found → Found
  offer slot_cursor f = record {
    slots = f.slots ++ slot_at slot_cursor ∷ [];
    seen = slot_cursor ∷ f.seen;
  }

  -- one round of the innermost loop, without the step of the cursor
  unfoldable pub visit : ℕ → Found → Found
  visit slot_cursor f =
      if leb (slot_cursor + q.slot_delta) q.reference_local
      then f
      else if any (λ c. nat_eq c slot_cursor) f.seen
      then f
      else if conflict_found (slot_at slot_cursor)
      then f
      else offer slot_cursor f

  -- the innermost loop
  unfoldable pub walk : ℕ → ℕ → ℕ → Found → Found
  walk zero range_end slot_cursor f = f
  walk (suc rounds) range_end slot_cursor f =
      elim (leb (slot_cursor + q.slot_delta) range_end && ltb (length f.slots) q.limit) [
        | true ↦ walk rounds range_end (slot_cursor + q.slot_delta) (visit slot_cursor f)
        | false ↦ f
      ]

  abbrev pub start_of : ℕ → Range → ℕ
  start_of day r = day + hours_long r.start_hour + minutes r.start_minute

  abbrev pub end_of : ℕ → Range → ℕ
  end_of day r = day + hours_long r.end_hour + minutes r.end_minute

  -- The loop takes at most as many rounds as slots fit into the range.
  unfoldable pub walk_range : ℕ → Range → Found → Found
  walk_range day r f =
      walk ((end_of day r - start_of day r) / q.slot_delta) (end_of day r) (start_of day r) f

  abbrev pub is_full : Found → Bool
  is_full f = leb q.limit (length f.slots)

  -- the loop over the ranges of a key
  unfoldable pub walk_ranges : ℕ → List String → Found → Found
  walk_ranges day [] f = f
  walk_ranges day (raw_range ∷ ranges) f = elim (parse_business_range raw_range) [
    | none ↦ walk_ranges day ranges f
    | some r ↦ elim (is_full (walk_range day r f)) [
      | true ↦ walk_range day r f
      | false ↦ walk_ranges day ranges (walk_range day r f)
    ]
  ]

  -- the loop over the keys of a day
  unfoldable pub walk_keys : ℕ → List String → Found → Found
  walk_keys day [] f = f
  walk_keys day (key ∷ keys) f =
      let f' = walk_ranges day (hours_for key q.business_hours) f in
      elim (is_full f') [ true ↦ f' | false ↦ walk_keys day keys f' ]

  -- midnight, so many days after the reference
  abbrev pub day_at : ℕ → ℕ
  day_at day_offset = (q.reference_local + days_long day_offset) / days_long 1 * days_long 1

  abbrev pub weekday : ℕ → ℕ
  weekday day = day / days_long 1 % 7

  -- the loop over the days
  unfoldable pub walk_days : ℕ → ℕ → Found → Found
  walk_days zero day_offset f = f
  walk_days (suc days) day_offset f =
      let day = day_at day_offset in
      let f' = walk_keys day (business_hour_keys (weekday day)) f in
      elim (is_full f') [ true ↦ f' | false ↦ walk_days days (day_offset + 1) f' ]

abbrev pub nothing_found : Found
nothing_found = record { slots = []; seen = [] }

unfoldable pub find_slots : Zones → Search → ℕ → List Slot
find_slots z q days = (walk_days z q days 0 nothing_found).slots
