-- ===== src/Bookings/Kept.antt =====
-- The bodies of `create_booking` and `update_booking` (store.py) book no slot twice.
use real_voice_agent_free.Prelude.{
  ◌++◌, ℕ, ◌≤◌, String, ◌==◌, ◌≡◌, refl, ◌⊎◌, Bool, true, false, not, ◌&&◌, none, some, [], ◌∷◌,
  All-imp, All-always, find-test, DateTime, minutes, days_long, arith, inl, inr, eq_iff,
}
use real_voice_agent_free.Env.{Env, OrdersRows}
use real_voice_agent_free.Models.{AgentModel, BookingModel, BookingStatus}
use real_voice_agent_free.Db.{Db, bookings}
use real_voice_agent_free.Session.{replace}
use real_voice_agent_free.Session.Keeps.{Keeps}
use real_voice_agent_free.Session.Does.{
  Does, Sees, Does-bind, Does-found, Does-given, Does-before, Does-new_id, Does-insert, Does-save,
  Does-pure, Does-Keeps,
}
use real_voice_agent_free.Webhooks.{Emission, emit_event}
use real_voice_agent_free.Webhooks.Emits.{Sees-emit_event}
use real_voice_agent_free.Availability.{Zones, IsSteady, KeepsInstants, is_active}
use real_voice_agent_free.Bookings.{
  BookingCreateRequest, BookingUpdateRequest, get_booking_or_404, new_booking, as_stored, book,
  changed_booking, ensure_unless_cancelled, settled_booking, rebook,
}
use real_voice_agent_free.Bookings.Apart.{
  IsApart, IsApart-sym, IsApart-refl, inactive-IsApart, AllPairs-append, AllPairs-replace, eq-sym,
}
use real_voice_agent_free.Bookings.Booked.{
  IsBooked, get_agent-IsSteady, FitsIn, Excludes, ensure-FitsIn, calendar_create-Does,
  calendar_update-Does,
}

module _ (env : Env) (z : Zones) (orders : OrdersRows env) (compares : KeepsInstants z)
    (short : minutes env.settings.booking_slot_minutes ≤ days_long 2) where
  abbrev length : ℕ
  length = minutes env.settings.booking_slot_minutes

  abbrev Booked : Db → Type 0
  Booked = IsBooked length z

  abbrev Fits : BookingModel → Db → Type 0
  Fits = FitsIn env z orders compares short

  append-Booked :
      (b : BookingModel) (d : Db)
      → Booked d
      → Fits b d
      → Booked (bookings.write (bookings.rows d ++ b ∷ []) d)
  append-Booked b d h fits = record {
    apart =
        AllPairs-append (IsApart length) b d.bookings h.apart fits
          (All-imp _ _ d.bookings (λ c. IsApart-sym length b c) fits) (IsApart-refl length b);
    steady = h.steady;
  }

  replace-Booked :
      (b : BookingModel) (d : Db)
      → Booked d
      → Fits b d
      → Booked (bookings.write (replace bookings.key b (bookings.rows d)) d)
  replace-Booked b d h fits = record {
    apart =
        AllPairs-replace (IsApart length) b d.bookings h.apart fits
          (All-imp _ _ d.bookings (λ c. IsApart-sym length b c) fits) (IsApart-refl length b)
          bookings.key;
    steady = h.steady;
  }

  emit-Booked : (e : Emission) → Keeps (Sees Booked) (emit_event env e)
  emit-Booked e =
      Sees-emit_event env Booked (λ d rows h. record { apart = h.apart; steady = h.steady })
        (λ d rows h. record { apart = h.apart; steady = h.steady }) e

  pub book-Booked :
      (payload : BookingCreateRequest) (org trace : String) (now : DateTime)
      → Does Booked (book env z payload org trace now) (λ b. Booked)
  unfolding book new_booking as_stored
  book-Booked payload org trace now =
      Does-bind _ _ (get_agent-IsSteady env z orders compares short payload.agent_id org) λ a.
        Does-given {F = IsSteady z a.timezone × ((a.id == payload.agent_id) ≡ true)} _ (λ d h. h.1)
          λ f.
            Does-bind _ _
              (Does-before _ (λ d h. h.0)
                (ensure-FitsIn env z orders compares short a org payload.start_at now none f.0))
              λ u.
                Does-bind _ _ (calendar_create-Does env z orders compares short payload.agent_id)
                  λ r. Does-bind _ _ (Does-new_id env "bk_" 8) λ id.
                    Does-bind _ _
                      (Does-insert Booked bookings (as_stored z (new_booking id payload org r now))
                        λ d h free.
                          append-Booked (as_stored z (new_booking id payload org r now)) d h.0 (
                            h.1 (as_stored z (new_booking id payload org r now)) refl refl f.1
                              (λ c e. refl)))
                      λ u'.
                        Does-bind _ _ (Does-Keeps _ (emit-Booked _)) λ e. Does-pure _ _ (λ d h. h)

  -- what the check before an update leaves, by the new status
  abbrev Checked : AgentModel → String → BookingModel → BookingStatus → Db → Type 0
  Checked agent org changed status d =
      (is_active status ≡ false)
      ⊎ ((b : BookingModel)
          → b.start_at ≡ z.stored changed.start_at
          → b.organization_id ≡ org
          → (agent.id == b.agent_id) ≡ true
          → Excludes env z orders compares short (some changed.id) b
          → Fits b d)

  unless-Checked :
      (agent : AgentModel) (org : String) (changed : BookingModel) (now : DateTime)
      (status : BookingStatus)
      → IsSteady z agent.timezone
      → Does Booked
          (ensure_unless_cancelled env z agent org changed now status)
          (λ u d. Booked d × Checked agent org changed status d)
  unfolding ensure_unless_cancelled
  unless-Checked agent org changed now BookingStatus.cancelled steady =
      Does-pure _ tt (λ d h. (h, inl refl))
  unless-Checked agent org changed now _ steady = record {
    post = λ w u h e.
        let (h', fits) =
          (ensure-FitsIn env z orders compares short agent org changed.start_at now
              (some changed.id) steady).post
            w u h e in
        (h', inr fits);
  }

  Excludes-self :
      (id : String) (b : BookingModel)
      → b.id ≡ id
      → Excludes env z orders compares short (some id) b
  Excludes-self id b same c other =
      rw (eq-sym id c.id false (rw same at other)) (and-false (not (id == "")))
    where
      and-false : (a : Bool) → (a && false) ≡ false
      and-false a = ground arith

  Checked-Fits :
      (agent : AgentModel) (org : String) (changed b : BookingModel) (status : BookingStatus)
      (d : Db)
      → Checked agent org changed status d
      → b.status ≡ status
      → b.start_at ≡ z.stored changed.start_at
      → b.organization_id ≡ org
      → (agent.id == b.agent_id) ≡ true
      → b.id ≡ changed.id
      → Fits b d
  Checked-Fits agent org changed b status d (inl off) is start o a i =
      All-always _ (λ c. inactive-IsApart length b c (rw is off)) d.bookings
  Checked-Fits agent org changed b status d (inr fits) is start o a i =
      fits b start o a (Excludes-self changed.id b i)

  get_booking-Found :
      (id org : String)
      → Does Booked (get_booking_or_404 id org) (λ b d. Booked d × (b.organization_id ≡ org))
  unfolding get_booking_or_404
  get_booking-Found id org =
      let named : BookingModel → Bool = λ b. b.id == id && b.organization_id == org in
      record {
        post = λ w b h e.
            let (h', here) = (Does-found {P = Booked} bookings named _).post w b h e in
            (h', (eq_iff b.organization_id org).0 (and-right _ _ (find-test named _ b here)));
      }
    where
      and-right : (a b : Bool) → (a && b) ≡ true → b ≡ true
      and-right a b h = ground arith

  pub rebook-Booked :
      (id : String) (payload : BookingUpdateRequest) (org trace : String) (now : DateTime)
      → Does Booked (rebook env z id payload org trace now) (λ b. Booked)
  unfolding rebook settled_booking changed_booking as_stored
  rebook-Booked id payload org trace now = Does-bind _ _ (get_booking-Found id org) λ b.
      Does-given {F = b.organization_id ≡ org} _ (λ d h. h.1)
        λ same_org.
          Does-bind _ _
            (Does-before _ (λ d h. h.0)
              (get_agent-IsSteady env z orders compares short b.agent_id org))
            λ a.
              Does-given {F = IsSteady z a.timezone × ((a.id == b.agent_id) ≡ true)} _ (λ d h. h.1)
                λ f.
                  Does-bind _ _
                    (Does-before _ (λ d h. h.0)
                      (unless-Checked a org (changed_booking b payload) now
                        (changed_booking b payload).status f.0))
                    λ u.
                      Does-bind _ _
                        (calendar_update-Does env z orders compares short b.agent_id _ _)
                        λ r.
                          Does-bind _ _
                            (Does-save Booked bookings
                              (as_stored z (settled_booking (changed_booking b payload) r now))
                              λ d h. replace-Booked _ d h.0.0 (
                                Checked-Fits a org (changed_booking b payload)
                                  (as_stored z (settled_booking (changed_booking b payload) r now))
                                  (changed_booking b payload).status d h.0.1 h.1 refl same_org f.1
                                  refl))
                            λ u'.
                              Does-bind _ _ (Does-Keeps _ (emit-Booked _))
                                λ e. Does-pure _ _ (λ d h. h)
