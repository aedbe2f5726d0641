-- ===== src/Bookings/Free.antt =====
-- What the check of a slot tells of the bookings of the agent (store.py,
-- `_ensure_booking_slot_available`).
use real_voice_agent_free.Prelude.{
  ℕ, ◌+◌, ◌-◌, ◌≤◌, String, ◌==◌, ◌≡◌, refl, sym, ap, ◌∙◌, subst, Bool, true, false, Option, some,
  List, [], ◌∷◌, All, any, filter, leb, nat_eq, any-count, count-any, any-All, any-filter, DateTime,
  aware, minutes, days_long, Bool-cases, inl, inr, arith,
}
use real_voice_agent_free.Env.{Env, whole, OrdersRows}
use real_voice_agent_free.Models.{AgentModel, BookingModel}
use real_voice_agent_free.Availability.{
  Zones, IsSteady, KeepsInstants, Slot, Search, Asked, as_agent_utc, ranges_overlap, slot_at,
  conflict_found, find_slots, is_active, is_excluded, is_near, effective_minutes, search_of,
}
use real_voice_agent_free.Availability.Offers.{IsOffered, find_slots-IsOffered}
use real_voice_agent_free.Bookings.{slot_query, offers}

-- Two bookings of that length do not overlap.
abbrev pub AreDisjoint : ℕ → DateTime → DateTime → Type 0
AreDisjoint length s t = ranges_overlap s (s + length) t (t + length) ≡ false

-- A booking of the agent that holds its slot, other than the excluded one.
abbrev pub HoldsSlot : AgentModel → String → Option String → BookingModel → Type 0
HoldsSlot agent org excluded b =
    (b.organization_id == org) ≡ true
    × ((b.agent_id == agent.id) ≡ true)
    × (is_active b.status ≡ true)
    × (is_excluded excluded b ≡ false)

-- The booking leaves the slot at `t` free.
abbrev pub LeavesFree : ℕ → AgentModel → String → Option String → DateTime → BookingModel → Type 0
LeavesFree length agent org excluded t b =
    HoldsSlot agent org excluded b → (s : DateTime) → b.start_at ≡ aware s → AreDisjoint length t s

pub effective_minutes-some :
    (env : Env)
    → effective_minutes env.settings (some env.settings.booking_slot_minutes)
      ≡ env.settings.booking_slot_minutes
unfolding effective_minutes
effective_minutes-some env = ground arith

before : (length t s : ℕ) → leb (t - length) s ≡ false → AreDisjoint length t s
unfolding ranges_overlap
before length t s h = ground arith

later :
    (length t s : ℕ)
    → length ≤ days_long 2
    → leb s (t + days_long 2) ≡ false
    → AreDisjoint length t s
unfolding ranges_overlap
later length t s short h = ground arith

module _ (env : Env) (z : Zones) (orders : OrdersRows env) (compares : KeepsInstants z)
    (agent : AgentModel) (org : String) (t now : DateTime) (excluded : Option String) where
  abbrev length : ℕ
  length = minutes env.settings.booking_slot_minutes

  abbrev asked : Asked
  asked = slot_query agent org t now env.settings.booking_slot_minutes excluded

  abbrev near : BookingModel → Bool
  near = is_near z agent org (t - length) (t + days_long 2) excluded

  -- the conflict test of a slot, and of the one at `t`
  abbrev clash : DateTime → DateTime → ℕ → BookingModel → Bool
  clash starts ends delta b =
      let start = as_agent_utc z b.start_at agent.timezone in
      ranges_overlap starts ends start (start + delta)

  abbrev clashes : BookingModel → Bool
  clashes = clash t (t + length) length

  near-or-disjoint :
      length ≤ days_long 2
      → (b : BookingModel) → (near b ≡ true → clashes b ≡ false)
      → LeavesFree length agent org excluded t b
  unfolding is_near as_agent_utc
  near-or-disjoint short b free (o, a, c, e) s dated =
      let column : z.column_time b.start_at ≡ s = rw dated (compares.column_time-aware s) in
      elim (Bool-cases (leb (t - length) s)) [
        | inr early ↦ before length t s early
        | inl from_ ↦ elim (Bool-cases (leb s (t + days_long 2))) [
          | inr late ↦ later length t s short late
          | inl until ↦
              let is_near_it : near b ≡ true =
                rw o (rw a (rw c (rw column (rw from_ (rw until (rw e refl)))))) in
              rw dated at (free is_near_it)
        ]
      ]

  module _ (steady : IsSteady z agent.timezone) (short : length ≤ days_long 2)
      (rows : List BookingModel) where
    abbrev found : List BookingModel
    found = env.order_asc whole BookingModel (λ b. z.column_time b.start_at) (filter near rows)

    abbrev query : Search
    query = search_of env z asked found

    slot_length : query.slot_delta ≡ length
    unfolding search_of
    slot_length = ap minutes (effective_minutes-some env)

    -- a slot that is offered at `t` ends when its length has passed
    ends :
        (slot : Slot)
        → slot.start_at ≡ t
        → (wall : ℕ) → slot ≡ slot_at z query wall
        → slot.end_at ≡ t + length
    unfolding slot_at search_of
    ends slot starts wall is =
        ap (λ (x : Slot). x.end_at) is
        ∙ steady.to_utc-add wall query.slot_delta
        ∙ ap (λ (u : ℕ). u + query.slot_delta) (sym (ap (λ (x : Slot). x.start_at) is) ∙ starts)
        ∙ ap (λ (d : ℕ). t + d) slot_length

    no_clash : offers t (find_slots z query 1) ≡ true → any clashes found ≡ false
    unfolding conflict_found search_of
    no_clash yes_offer =
        let (slot, starts, offered) =
          any-All (IsOffered z query) (λ slot. nat_eq slot.start_at t) (find_slots z query 1)
            yes_offer (find_slots-IsOffered z query 1).0 in
        let starts_at : slot.start_at ≡ t = nat_eq-true _ _ starts in
        subst (λ (u : ℕ). any (clash u (t + length) length) found ≡ false) starts_at
          (subst (λ (v : ℕ). any (clash slot.start_at v length) found ≡ false)
            (ends slot starts_at offered.wall offered.starts_there)
            (subst (λ (d : ℕ). any (clash slot.start_at slot.end_at d) found ≡ false) slot_length
              offered.free))
      where
        nat_eq-true : (a b : ℕ) → nat_eq a b ≡ true → a ≡ b
        nat_eq-true a b h = ground arith

    pub offers-LeavesFree :
        offers t (find_slots z query 1) ≡ true → All (LeavesFree length agent org excluded t) rows
    offers-LeavesFree yes_offer =
        let none_found = any-count clashes found (no_clash yes_offer) in
        let none_near = count-any clashes (filter near rows) (
          sym (
            orders.count-order_asc whole BookingModel (λ b. z.column_time b.start_at) clashes
              (filter near rows))
          ∙ none_found) in
        each rows (any-filter near clashes rows none_near)
      where
        each :
            (bs : List BookingModel)
            → All (λ b. near b ≡ true → clashes b ≡ false) bs
            → All (LeavesFree length agent org excluded t) bs
        each [] h = tt
        each (b ∷ bs) h = (near-or-disjoint short b h.0, each bs h.1)
