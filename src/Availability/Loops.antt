-- ===== src/Availability/Loops.antt =====
-- The rule for invariants of the loops that collect slots (store.py,
-- `_build_agent_availability_payload`): what a round keeps, all loops keep.
use real_voice_agent_free.Prelude.{
  ℕ, zero, suc, ◌+◌, ◌≤◌, String, ◌≡◌, true, some, List, [], ◌∷◌, All, length, leb, ltb, leb→le,
  Bool-cases, Option-cases, inl, inr, arith,
}
use real_voice_agent_free.Availability.Clocks.{Zones}
use real_voice_agent_free.Availability.Hours.{Range, business_hour_keys, parse_business_range}
use real_voice_agent_free.Availability.Slots.{
  Search, Found, hours_for, visit, walk, start_of, end_of, is_full, walk_range, walk_ranges,
  walk_keys, day_at, weekday, walk_days,
}

-- `Opens day r` is what is known of a range `r` that is walked on a day.
module _ (z : Zones) (q : Search) (P : Found → Type 0) (Opens : ℕ → Range → Type 0)
    (keep : (day : ℕ) (r : Range) (c : ℕ) (f : Found)
      → Opens day r
      → start_of z q day r ≤ c
      → c + q.slot_delta ≤ end_of z q day r
      → ltb (length f.slots) q.limit ≡ true
      → P f
      → P (visit z q c f)) where
  walk-keeps :
      (day : ℕ) (r : Range)
      → Opens day r
      → (rounds c : ℕ) (f : Found) → start_of z q day r ≤ c
      → P f
      → P (walk z q rounds (end_of z q day r) c f)
  unfolding walk
  walk-keeps day r o zero c f above h = h
  walk-keeps day r o (suc rounds) c f above h =
      elim (Bool-cases (leb (c + q.slot_delta) (end_of z q day r))) [
        | inl fits ↦ elim (Bool-cases (ltb (length f.slots) q.limit)) [
          | inl room ↦
              rw (fits, room, walk)
                (walk-keeps day r o rounds (c + q.slot_delta) (visit z q c f) (omega (arith, above))
                  (keep day r c f o above (leb→le _ _ fits) room h))
          | inr full ↦ rw (fits, full, walk) h
        ]
        | inr past ↦ rw (past, walk) h
      ]

  walk_range-keeps :
      (day : ℕ) (r : Range) (f : Found) → Opens day r → P f → P (walk_range z q day r f)
  unfolding walk_range
  walk_range-keeps day r f o h = walk-keeps day r o _ (start_of z q day r) f (omega arith) h

  -- the ranges that are read from texts
  abbrev pub OpenTexts : ℕ → List String → Type 0
  OpenTexts day raws =
      All (λ raw. (r : Range) → parse_business_range raw ≡ some r → Opens day r) raws

  walk_ranges-keeps :
      (day : ℕ) (raws : List String) (f : Found)
      → OpenTexts day raws
      → P f
      → P (walk_ranges z q day raws f)
  unfolding walk_ranges
  walk_ranges-keeps day [] f o h = h
  walk_ranges-keeps day (raw ∷ raws) f o h = elim (Option-cases (parse_business_range raw)) [
    | inl bad ↦ rw (bad, walk_ranges) (walk_ranges-keeps day raws f o.1 h)
    | inr (r, good) ↦
        let h' = walk_range-keeps day r f (o.0 r good) h in
        elim (Bool-cases (is_full z q (walk_range z q day r f))) [
          | inl full ↦ rw (good, full, walk_ranges) h'
          | inr room ↦
              rw (good, room, walk_ranges)
                (walk_ranges-keeps day raws (walk_range z q day r f) o.1 h')
        ]
  ]

  walk_keys-keeps :
      (day : ℕ) (keys : List String) (f : Found)
      → All (λ key. OpenTexts day (hours_for key q.business_hours)) keys
      → P f
      → P (walk_keys z q day keys f)
  unfolding walk_keys
  walk_keys-keeps day [] f o h = h
  walk_keys-keeps day (key ∷ keys) f o h =
      let f' = walk_ranges z q day (hours_for key q.business_hours) f in
      let h' = walk_ranges-keeps day (hours_for key q.business_hours) f o.0 h in
      elim (Bool-cases (is_full z q f')) [
        | inl full ↦ rw (full, walk_keys) h'
        | inr room ↦ rw (room, walk_keys) (walk_keys-keeps day keys f' o.1 h')
      ]

  pub walk_days-keeps :
      ((day_offset : ℕ)
        → All
            (λ key. OpenTexts (day_at z q day_offset) (hours_for key q.business_hours))
            (business_hour_keys (weekday z q (day_at z q day_offset))))
      → (days day_offset : ℕ) (f : Found) → P f
      → P (walk_days z q days day_offset f)
  unfolding walk_days
  walk_days-keeps o zero day_offset f h = h
  walk_days-keeps o (suc days) day_offset f h =
      let day = day_at z q day_offset in
      let f' = walk_keys z q day (business_hour_keys (weekday z q day)) f in
      let h' = walk_keys-keeps day _ f (o day_offset) h in
      elim (Bool-cases (is_full z q f')) [
        | inl full ↦ rw (full, walk_days) h'
        | inr room ↦ rw (room, walk_days) (walk_days-keeps o days (day_offset + 1) f' h')
      ]
