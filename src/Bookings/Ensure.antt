-- ===== src/Bookings/Ensure.antt =====
-- The check of a slot in its session (store.py, `_ensure_booking_slot_available`): where it returns,
-- the slot is free.
use real_voice_agent_free.Prelude.{
  ℕ, ◌+◌, ◌-◌, ◌≤◌, max, String, ◌≡◌, sym, ap, subst, true, Bool-cases, inl, inr, ltb, Option, List,
  All, filter, DateTime, Stamp, minutes, days_long,
}
use real_voice_agent_free.Env.{Env, whole, OrdersRows}
use real_voice_agent_free.Models.{AgentModel, BookingModel}
use real_voice_agent_free.Db.{Db, bookings, integrations}
use real_voice_agent_free.Session.{World}
use real_voice_agent_free.Session.Keeps.{
  Keeps, Keeps-bind, Keeps-pure, Keeps-raise, Keeps-count_rows, keeps_rules,
}
use real_voice_agent_free.Session.Does.{
  Does, Does-bind, Does-select, Does-count_rows, Does-raise, Does-pure, Does-before,
}
use real_voice_agent_free.Availability.{
  Zones, IsSteady, KeepsInstants, Asked, Availability, as_utc, is_near, effective_minutes,
  reference_utc, search_of, near_bookings, build_agent_availability_payload, find_slots, Slot,
}
use real_voice_agent_free.Bookings.{slot_query, offers, refuse_slot, ensure_booking_slot_available}
use real_voice_agent_free.Bookings.Free.{LeavesFree, effective_minutes-some, offers-LeavesFree}

module _ (env : Env) (z : Zones) (P : Db → Type 0) where
  -- The bookings that the queries of `near_bookings` finds in `rows`.
  abbrev near_of : Asked → List BookingModel → List BookingModel
  near_of a rows =
      env.order_asc whole BookingModel (λ b. z.column_time b.start_at)
        (filter
          (is_near z a.agent a.organization_id
            (reference_utc z a - minutes (effective_minutes env.settings a.slot_minutes))
            (reference_utc z a + days_long (max 1 a.days + 1)) a.exclude_booking_id)
          rows)

  near_bookings-Does :
      (a : Asked) → Does P (near_bookings env z a) (λ found d. P d × (near_of a d.bookings ≡ found))
  unfolding near_bookings
  near_bookings-Does a = Does-bind _ _ (Does-select bookings _) λ found.
      Does-pure _ _
        λ d h. (h.0, ap (env.order_asc whole BookingModel (λ b. z.column_time b.start_at)) h.1)

  pub build-Does :
      (a : Asked)
      → Does P (build_agent_availability_payload env z a) (λ v d.
        P d × (v.slots ≡ find_slots z (search_of env z a (near_of a d.bookings)) (max 1 a.days)))
  unfolding build_agent_availability_payload
  build-Does a = Does-bind _ _ (near_bookings-Does a) λ found.
      Does-bind _ _ (Does-count_rows integrations _) λ connected. Does-pure _ _ λ d h. (
        h.0.0,
        ap (λ (bs : List BookingModel). find_slots z (search_of env z a bs) (max 1 a.days))
            (sym h.0.1),
      )

  refuse_slot-Does :
      (Q : Unit {0} → Db → Type 0) (agent : AgentModel) (org : String) (t : DateTime)
      (excluded : Option String)
      → Does P (refuse_slot env z agent org t excluded) Q
  unfolding refuse_slot
  refuse_slot-Does Q agent org t excluded = Does-bind _ _ (Does-count_rows bookings _) λ n.
      elim (Bool-cases (ltb 0 n)) [ inl e ↦ rw e (Does-raise Q _) | inr e ↦ rw e (Does-raise Q _) ]

  module _ (orders : OrdersRows env) (compares : KeepsInstants z) (agent : AgentModel)
      (org : String) (steady : IsSteady z agent.timezone)
      (short : minutes env.settings.booking_slot_minutes ≤ days_long 2) (t now : DateTime)
      (excluded : Option String) where
    abbrev asked : Asked
    asked = slot_query agent org t now env.settings.booking_slot_minutes excluded

    abbrev Free : Db → Type 0
    Free d =
        All (LeavesFree (minutes env.settings.booking_slot_minutes) agent org excluded t) d.bookings

    offered-Free :
        (v : Availability) (d : Db)
        → v.slots ≡ find_slots z (search_of env z asked (near_of asked d.bookings)) 1
        → offers t v.slots ≡ true
        → Free d
    unfolding as_utc
    offered-Free v d is yes_offer =
        offers-LeavesFree env z orders compares agent org t now excluded steady short d.bookings (
          subst
            (λ (m : ℕ).
              offers t (
                find_slots z
                  (search_of env z asked (
                    env.order_asc whole BookingModel (λ b. z.column_time b.start_at)
                      (filter (is_near z agent org (t - minutes m) (t + days_long 2) excluded)
                        d.bookings)))
                  1)
              ≡ true)
            (effective_minutes-some env)
            (subst (λ (slots : List Slot). offers t slots ≡ true) is yes_offer))

    -- Where the check returns, every booking of the agent leaves the slot free.
    pub ensure-Free :
        (start_at : Stamp)
        → as_utc z start_at ≡ t
        → Does P
            (ensure_booking_slot_available env z agent org start_at now excluded)
            (λ u d. P d × Free d)
    unfolding ensure_booking_slot_available
    ensure-Free start_at is = rw is (
        Does-bind _ _ (build-Does asked) λ v. elim (Bool-cases (offers t v.slots)) [
          | inl yes_offer ↦
              rw yes_offer (Does-pure _ tt (λ d h. (h.0, offered-Free v d h.1 yes_offer)))
          | inr taken ↦ rw taken (
              Does-before _ (λ d h. h.0)
                (refuse_slot-Does (λ u d. P d × Free d) agent org t excluded))
        ])

-- The check changes nothing.
module _ (env : Env) (z : Zones) {P : World → Type 0} where
  build-Keeps : (a : Asked) → Keeps P (build_agent_availability_payload env z a)
  unfolding build_agent_availability_payload near_bookings
  build-Keeps a = search keeps_rules depth 8

  refuse_slot-Keeps :
      (agent : AgentModel) (org : String) (t : DateTime) (excluded : Option String)
      → Keeps P (refuse_slot env z agent org t excluded)
  unfolding refuse_slot
  refuse_slot-Keeps agent org t excluded = Keeps-bind _ _ (Keeps-count_rows bookings _) λ n.
      elim (Bool-cases (ltb 0 n)) [ inl e ↦ rw e (Keeps-raise _) | inr e ↦ rw e (Keeps-raise _) ]

  pub ensure-Keeps :
      (agent : AgentModel) (org : String) (start_at : Stamp) (now : DateTime)
      (excluded : Option String)
      → Keeps P (ensure_booking_slot_available env z agent org start_at now excluded)
  unfolding ensure_booking_slot_available
  ensure-Keeps agent org start_at now excluded = Keeps-bind _ _ (build-Keeps _) λ v.
      elim (Bool-cases (offers (as_utc z start_at) v.slots)) [
        | inl e ↦ rw e (Keeps-pure tt)
        | inr e ↦ rw e (refuse_slot-Keeps agent org _ excluded)
      ]
