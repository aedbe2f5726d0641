-- ===== src/Bookings/Booked.antt =====
-- No double booking: what the methods on bookings (store.py, `create_booking`, `update_booking`)
-- keep.
use real_voice_agent_free.Prelude.{
  ℕ, ◌≤◌, String, ◌==◌, ◌≡◌, refl, sym, ◌∙◌, Bool, true, false, ◌&&◌, Option, none, some, All,
  All-imp, find-test, DateTime, Stamp, minutes, days_long, arith,
}
use real_voice_agent_free.Env.{Env, OrdersRows}
use real_voice_agent_free.Models.{AgentModel, BookingModel, BookingStatus}
use real_voice_agent_free.Db.{Db, agents}
use real_voice_agent_free.Session.Does.{Does, Does-bind, Does-found, Does-new_id, Does-pure}
use real_voice_agent_free.Calls.{get_agent_or_404}
use real_voice_agent_free.Auth.Keys.{find-All}
use real_voice_agent_free.Availability.{Zones, IsSteady, KeepsInstants, as_utc, is_excluded}
use real_voice_agent_free.Bookings.{
  calendar_create, external_id_of, calendar_update, ensure_booking_slot_available,
}
use real_voice_agent_free.Bookings.Ensure.{ensure-Free}
use real_voice_agent_free.Bookings.Apart.{IsApart, free-IsApart, AllPairs}

-- The bookings do not overlap, and no agent is in a time zone that sets its clocks back or forward.
pub record IsBooked (length : ℕ) (z : Zones) (d : Db) : Type 0 where
  pub apart : AllPairs (IsApart length) d.bookings
  pub steady : All (λ a. IsSteady z a.timezone) d.agents

module _ (env : Env) (z : Zones) (orders : OrdersRows env) (compares : KeepsInstants z)
    (short : minutes env.settings.booking_slot_minutes ≤ days_long 2) where
  abbrev length : ℕ
  length = minutes env.settings.booking_slot_minutes

  abbrev Booked : Db → Type 0
  Booked = IsBooked length z

  pub get_agent-IsSteady :
      (id org : String)
      → Does Booked
          (get_agent_or_404 id org)
          (λ a d. Booked d × (IsSteady z a.timezone × ((a.id == id) ≡ true)))
  unfolding get_agent_or_404
  get_agent-IsSteady id org =
      let named : AgentModel → Bool = λ a. a.id == id && a.organization_id == org in
      record {
        post = λ w a h e.
            let (h', here) = (Does-found {P = Booked} agents named _).post w a h e in
            (
              h',
              (
                find-All (λ x. IsSteady z x.timezone) named _ a h'.steady here,
                and-left _ _ (find-test named _ a here),
              ),
            );
      }
    where
      and-left : (a b : Bool) → (a && b) ≡ true → a ≡ true
      and-left a b h = ground arith

  -- A booking that may stand beside the others, where it is not the excluded one.
  abbrev pub FitsIn : BookingModel → Db → Type 0
  FitsIn b d = All (IsApart length b) d.bookings

  abbrev pub Excludes : Option String → BookingModel → Type 0
  Excludes excluded b = (c : BookingModel) → (b.id == c.id) ≡ false → is_excluded excluded c ≡ false

  -- After the check, a booking that is stored with the checked time fits in.
  pub ensure-FitsIn :
      (agent : AgentModel) (org : String) (start_at : Stamp) (now : DateTime)
      (excluded : Option String)
      → IsSteady z agent.timezone
      → Does Booked (ensure_booking_slot_available env z agent org start_at now excluded) (λ u d.
        Booked d
        × ((b : BookingModel)
            → b.start_at ≡ z.stored start_at
            → b.organization_id ≡ org
            → (agent.id == b.agent_id) ≡ true
            → Excludes excluded b
            → FitsIn b d))
  ensure-FitsIn agent org start_at now excluded steady =
      let t = as_utc z start_at in
      record {
        post = λ w u h e.
            let (h', free) =
              (ensure-Free env z Booked orders compares agent org steady short t now excluded
                  start_at refl).post
                w u h e in
            (
              h',
              λ b starts same_org same_agent others.
                  All-imp _ _ _
                    (λ c leaves.
                      free-IsApart length agent excluded b c t same_agent
                        (λ s is. sym (compares.as_utc-stored start_at s (sym starts ∙ is)))
                        (others c) (rw same_org leaves))
                    free,
            );
      }

  -- What comes between the check and the write.
  pub calendar_create-Does :
      {P : Db → Type 0} → (id : String) → Does P (calendar_create env id) (λ r. P)
  unfolding calendar_create
  calendar_create-Does id = Does-bind _ _ (Does-new_id env _ 10) λ x. Does-pure _ _ (λ d h. h)

  external_id_of-Does :
      {P : Db → Type 0}
      → (id : String) (old : Option String) → Does P (external_id_of env id old) (λ r. P)
  unfolding external_id_of
  external_id_of-Does id none = Does-new_id env _ 10
  external_id_of-Does id (some String.[]) = Does-new_id env _ 10
  external_id_of-Does id (some (String.◌∷◌ c s)) = Does-pure _ _ (λ d h. h)

  pub calendar_update-Does :
      {P : Db → Type 0}
      → (id : String) (old : Option String) (status : BookingStatus)
      → Does P (calendar_update env id old status) (λ r d. P d × (r.status ≡ status))
  unfolding calendar_update
  calendar_update-Does id old status =
      Does-bind _ _ (external_id_of-Does id old) λ x. Does-pure _ _ (λ d h. (h, refl))
