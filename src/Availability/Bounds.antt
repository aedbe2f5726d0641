-- ===== src/Availability/Bounds.antt =====
-- The bounds of the business hours that are read from texts (store.py, `_parse_business_range`).
use real_voice_agent_free.Prelude.{
  ℕ, ◌+◌, ◌*◌, ◌<◌, String, ◌≡◌, true, false, Option, none, some, codes, Bool-cases, inl, inr,
  arith,
}
use real_voice_agent_free.Availability.Hours.{
  Range, in_bounds, ends_before, checked, ◌>>=◌, split_once, strip, time_of, parse_business_range,
}

bind-some :
    {A B : Type 0} (o : Option A) (k : A → Option B) (b : B)
    → (o >>= k) ≡ some b
    → (a : A) × (k a ≡ some b)
bind-some none k b h = cc
bind-some (some a) k b h = (a, h)

abbrev pub minute_of_day : ℕ → ℕ → ℕ
minute_of_day hour minute = hour * 60 + minute

-- A range of hours of one day that is not empty.
pub record IsRange (r : Range) : Type 0 where
  pub start_minute : r.start_minute < 60
  pub end_minute : r.end_minute < 60
  pub not_empty : minute_of_day r.start_hour r.start_minute < minute_of_day r.end_hour r.end_minute
  pub same_day : minute_of_day r.end_hour r.end_minute < 1440

some_inj : (r r' : Range) → some r ≡ some r' → r ≡ r'
some_inj r r' h = cc

none_ne_some : {r : Range} → none ≡ some r → ⊥
none_ne_some h = cc

range-IsRange : (r : Range) → in_bounds r ≡ true → ends_before r ≡ false → IsRange r
range-IsRange r b e = record {
  start_minute = ground arith;
  end_minute = ground arith;
  not_empty = ground arith;
  same_day = ground arith;
}

checked-IsRange : (r r' : Range) → checked r ≡ some r' → IsRange r'
checked-IsRange r r' h = elim (Bool-cases (in_bounds r)) [
  | inr out ↦ absurd (none_ne_some (rw out at h))
  | inl inside ↦ elim (Bool-cases (ends_before r)) [
    | inl empty ↦ absurd (none_ne_some (rw (inside, empty) at h))
    | inr fine ↦
        let same : r ≡ r' = some_inj r r' (rw (inside, fine) at h) in
        rw (← same) (range-IsRange r inside fine)
  ]
]

-- Business hours that are read from a text are a part of one day that is not empty: they start
-- before they end, and end at 23:59 at the latest.
pub parse_business_range-IsRange :
    (value : String) (r : Range) → parse_business_range value ≡ some r → IsRange r
unfolding parse_business_range
parse_business_range-IsRange value r h =
    let (halves, h1) = bind-some (split_once b'-' (codes value)) _ r h in
    let (start, h2) = bind-some (time_of (strip halves.0)) _ r h1 in
    let (end, h3) = bind-some (time_of (strip halves.1)) _ r h2 in
    checked-IsRange
      (record {
        start_hour = start.0;
        start_minute = start.1;
        end_hour = end.0;
        end_minute = end.1;
      })
      r h3
