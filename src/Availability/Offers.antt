-- ===== src/Availability/Offers.antt =====
-- Which slots an agent is offered for (store.py, `_build_agent_availability_payload`).
use real_voice_agent_free.Prelude.{
  ℕ, ◌+◌, ◌≤◌, ◌<◌, String, ◌==◌, ◌≡◌, refl, sym, ap, ◌∙◌, Bool, true, false, ◌||◌, some, List, [],
  ◌∷◌, ◌++◌, map, count, count-append, any-count, All, All-append, All-imp, any, length,
  length-append, leb, ltb, nat_eq, ltb→lt, Bool-cases, inl, inr, arith, eq_refl,
}
use real_voice_agent_free.Availability.Clocks.{Zones}
use real_voice_agent_free.Availability.Hours.{Range, business_hour_keys, parse_business_range}
use real_voice_agent_free.Availability.Slots.{
  Slot, Search, Found, hours_for, slot_at, conflict_found, offer, visit, start_of, end_of, day_at,
  weekday, nothing_found, walk_days, find_slots,
}
use real_voice_agent_free.Availability.Loops.{walk_days-keeps}

nat_eq-true : (a b : ℕ) → nat_eq a b ≡ true → a ≡ b
nat_eq-true a b h = ground arith

map-append : {A B : Type 0} (f : A → B) (xs ys : List A) → map f (xs ++ ys) ≡ map f xs ++ map f ys
map-append {A} {B} f [] ys = refl
map-append {A} {B} f (x ∷ xs) ys = ap (λ (zs : List B). f x ∷ zs) (map-append f xs ys)

module _ (z : Zones) (q : Search) where
  -- `r` is one of the ranges of the business hours on a day.
  pub record IsOpen (day : ℕ) (r : Range) : Type 0 where
    pub key : String
    pub raw : String
    pub key_of_day : any (λ k. k == key) (business_hour_keys (weekday z q day)) ≡ true
    pub raw_of_key : any (λ x. x == raw) (hours_for key q.business_hours) ≡ true
    pub reads : parse_business_range raw ≡ some r

  pub record IsOffered (slot : Slot) : Type 0 where
    pub day_offset : ℕ
    pub range : Range
    pub wall : ℕ
    pub is_open : IsOpen (day_at z q day_offset) range
    pub starts_there : slot ≡ slot_at z q wall
    pub after_opening : start_of z q (day_at z q day_offset) range ≤ wall
    pub before_closing : wall + q.slot_delta ≤ end_of z q (day_at z q day_offset) range
    pub not_past : q.reference_local < wall + q.slot_delta
    pub free : conflict_found z q slot ≡ false

  -- The slots are those of local starts of which no two are the same.
  pub record StartOnce (slots : List Slot) : Type 0 where
    pub starts : List ℕ
    pub of_starts : slots ≡ map (slot_at z q) starts
    pub once : (c : ℕ) → count (λ s. nat_eq s c) starts ≤ 1

  -- The local starts of the slots so far are the ones that are remembered.
  record Remembers (f : Found) : Type 0 where
    starts : List ℕ
    of_starts : f.slots ≡ map (slot_at z q) starts
    seen : (c : ℕ) → count (λ s. nat_eq s c) starts ≡ count (λ s. nat_eq s c) f.seen
    once : (c : ℕ) → count (λ s. nat_eq s c) f.seen ≤ 1

  abbrev IsKept : Found → Type 0
  IsKept f = All IsOffered f.slots × (length f.slots ≤ q.limit) × Remembers f

  -- A range that is walked on the day that is so many days after the reference.
  abbrev OpensOn : ℕ → Range → Type 0
  OpensOn day r = (n : ℕ) × (day ≡ day_at z q n) × IsOpen day r

  offer-Remembers :
      (c : ℕ) (f : Found)
      → any (λ s. nat_eq s c) f.seen ≡ false
      → Remembers f
      → Remembers (offer z q c f)
  offer-Remembers c f new h = record {
    starts = h.starts ++ c ∷ [];
    of_starts =
        ap (λ (xs : List Slot). xs ++ slot_at z q c ∷ []) h.of_starts
        ∙ sym (map-append (slot_at z q) h.starts (c ∷ []));
    seen = λ c'.
        ground (arith, count-append {0} (λ (s : ℕ). nat_eq s c') h.starts (c ∷ []), h.seen c');
    once = λ c'. elim (Bool-cases (nat_eq c c')) [
      | inl e ↦ ground (arith, any-count {0} (λ (s : ℕ). nat_eq s c) f.seen new, nat_eq-true c c' e)
      | inr e ↦ ground (arith, h.once c')
    ];
  }

  offer-IsKept :
      (c : ℕ) (f : Found)
      → IsOffered (slot_at z q c)
      → ltb (length f.slots) q.limit ≡ true
      → any (λ s. nat_eq s c) f.seen ≡ false
      → IsKept f
      → IsKept (offer z q c f)
  offer-IsKept c f new room unseen (offered, few, remembers) = (
    All-append IsOffered f.slots (slot_at z q c ∷ []) offered (new, tt),
    omega (arith, length-append {0} f.slots (slot_at z q c ∷ []), ltb→lt _ _ room),
    offer-Remembers c f unseen remembers,
  )

  visit-IsKept :
      (day : ℕ) (r : Range) (c : ℕ) (f : Found)
      → OpensOn day r
      → start_of z q day r ≤ c
      → c + q.slot_delta ≤ end_of z q day r
      → ltb (length f.slots) q.limit ≡ true
      → IsKept f
      → IsKept (visit z q c f)
  unfolding visit
  visit-IsKept day r c f (n, e, o) above below room h =
      elim (Bool-cases (leb (c + q.slot_delta) q.reference_local)) [
        | inl past ↦ rw past h
        | inr ahead ↦ elim (Bool-cases (any (λ x. nat_eq x c) f.seen)) [
          | inl old ↦ rw ahead (rw old h)
          | inr new ↦ elim (Bool-cases (conflict_found z q (slot_at z q c))) [
            | inl busy ↦ rw ahead (rw new (rw busy h))
            | inr free ↦ rw ahead (
                rw new (
                  rw free (
                    offer-IsKept c f
                      (record {
                        day_offset = n;
                        range = r;
                        wall = c;
                        is_open = rw (← e) o;
                        starts_there = refl;
                        after_opening = rw (← e) above;
                        before_closing = rw (← e) below;
                        not_past = leb-false _ _ ahead;
                        free = free;
                      })
                      room new h)))
          ]
        ]
      ]
    where
      leb-false : (a b : ℕ) → leb a b ≡ false → b < a
      leb-false a b h = ground arith

  All-member : (xs : List String) → All (λ x. any (λ y. y == x) xs ≡ true) xs
  All-member xs = suffix xs (λ x h. h)
    where
      suffix :
          (ys : List String)
          → ((x : String) → any (λ y. y == x) ys ≡ true → any (λ y. y == x) xs ≡ true)
          → All (λ x. any (λ y. y == x) xs ≡ true) ys
      suffix [] into = tt
      suffix (y ∷ ys) into =
          (into y (rw (eq_refl y) refl), suffix ys (λ x h. into x (or-right _ _ h)))
        where
          or-right : (a b : Bool) → b ≡ true → (a || b) ≡ true
          or-right a b h = ground arith

  day-OpensOn :
      (n : ℕ)
      → All
          (λ key.
            All
              (λ raw. (r : Range) → parse_business_range raw ≡ some r → OpensOn (day_at z q n) r)
              (hours_for key q.business_hours))
          (business_hour_keys (weekday z q (day_at z q n)))
  day-OpensOn n =
      All-imp _ _ _
        (λ key on_day.
          All-imp _ _ _
            (λ raw of_key r reads. (
              n,
              refl,
              record {
                key = key;
                raw = raw;
                key_of_day = on_day;
                raw_of_key = of_key;
                reads = reads;
              },
            ))
            (All-member (hours_for key q.business_hours)))
        (All-member (business_hour_keys (weekday z q (day_at z q n))))

  Remembers-StartOnce : (f : Found) → Remembers f → StartOnce f.slots
  Remembers-StartOnce f h = record {
    starts = h.starts;
    of_starts = h.of_starts;
    once = λ c. omega (arith, h.seen c, h.once c);
  }

  -- The slots that are found are at most as many as were wanted, and no two of them are those of
  -- one local start. Each starts and ends, on the clock of the agent, within one range of the
  -- business hours of its day, ends after the time from which slots were wanted, and is in conflict
  -- with none of the bookings.
  pub find_slots-IsOffered :
      (days : ℕ)
      → All IsOffered (find_slots z q days)
        × (length (find_slots z q days) ≤ q.limit)
        × StartOnce (find_slots z q days)
  unfolding find_slots
  find_slots-IsOffered days =
      let (offered, few, remembers) =
        walk_days-keeps z q IsKept OpensOn visit-IsKept day-OpensOn days 0 nothing_found (
          tt,
          omega arith,
          record { starts = []; of_starts = refl; seen = λ c. refl; once = λ c. omega arith },
        ) in
      (offered, few, Remembers-StartOnce (walk_days z q days 0 nothing_found) remembers)
