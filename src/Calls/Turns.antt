-- ===== src/Calls/Turns.antt =====
-- The numbering of a call's turns (store.py, `add_call_turn`).
use real_voice_agent_free.Prelude.{
  ℕ, zero, suc, String, ◌==◌, ◌≡◌, refl, sym, ap, ◌∙◌, Bool, true, false, List, [], ◌∷◌, ◌++◌, map,
  filter, count, find, count-append, DateTime, arith, inl, inr, Bool-cases, ◌&&◌, some, eq_iff,
}
use real_voice_agent_free.Env.{Env}
use real_voice_agent_free.Models.{CallTurnModel}
use real_voice_agent_free.Db.{Db, calls, call_turns}
use real_voice_agent_free.Session.Does.{
  Does, Does-bind, Does-found, Does-count_rows, Does-new_id, Does-save, Does-insert, Does-pure,
  Does-Keeps,
}
use real_voice_agent_free.Webhooks.Emits.{Sees-emit_event}
use real_voice_agent_free.Calls.{CallTurnCreateRequest, get_call_or_404, new_turn, add_turn}

-- The call that a lookup returns is the one in the table.
pub get_call-Found :
    (P : Db → Type 0) (call_id organization_id : String)
    → Does P (get_call_or_404 call_id organization_id) (λ call d.
      P d
      × (find (λ c. c.id == call_id && c.organization_id == organization_id) d.calls ≡ some call))
unfolding get_call_or_404
get_call-Found P call_id organization_id =
    Does-found calls (λ c. c.id == call_id && c.organization_id == organization_id) _

abbrev pub of_call : String → CallTurnModel → Bool
of_call call_id t = t.call_id == call_id

-- The turn that is added: it stands last, under the number of the turns that were there.
abbrev pub Added : String → List CallTurnModel → CallTurnModel → Db → Type 0
Added call_id ts turn d =
    (d.call_turns ≡ ts ++ turn ∷ [])
    × (turn.call_id ≡ call_id)
    × (turn.turn_index ≡ count (of_call call_id) ts)

pub add_turn-Added :
    (env : Env) (call_id : String) (payload : CallTurnCreateRequest) (org trace : String)
    (now : DateTime) (ts : List CallTurnModel)
    → Does
        (λ d. d.call_turns ≡ ts)
        (add_turn env call_id payload org trace now)
        (λ turn. Added call_id ts turn)
unfolding add_turn new_turn
add_turn-Added env call_id payload org trace now ts =
    Does-bind _ _ (get_call-Found (λ d. d.call_turns ≡ ts) call_id org) λ call.
      Does-bind _ _ (Does-count_rows call_turns (of_call call_id)) λ n.
        Does-bind _ _ (Does-new_id env "turn_" 8) λ id.
          Does-bind _ _
            (Does-save (λ d. (d.call_turns ≡ ts) × (count (of_call call_id) ts ≡ n)) calls _
              λ (d : Db)
                  (h : ((d.call_turns ≡ ts)
                      × (find (λ c. c.id == call_id && c.organization_id == org) d.calls
                          ≡ some call))
                    × (count (of_call call_id) d.call_turns ≡ n)).
                (h.0.0, ap (count (of_call call_id)) (sym h.0.0) ∙ h.1))
            λ u.
              Does-bind _ _
                (Does-insert (Added call_id ts (new_turn id call_id n payload now)) call_turns _
                  λ d h free. (
                    ap (λ (xs : List CallTurnModel). xs ++ new_turn id call_id n payload now ∷ [])
                        h.0,
                    refl,
                    sym h.1,
                  ))
                λ u'.
                  Does-bind _ _
                    (Does-Keeps _ (Sees-emit_event env _ (λ d rows h. h) (λ d rows h. h) _))
                    λ e. Does-pure _ _ (λ d h. h)

-- The numbers of a call's turns, in the order in which the turns were added.
abbrev pub indices : String → List CallTurnModel → List ℕ
indices call_id ts = map (λ t. t.turn_index) (filter (of_call call_id) ts)

abbrev pub up_to : ℕ → List ℕ
up_to zero = []
up_to (suc n) = up_to n ++ n ∷ []

-- The turns of each call are numbered from 0, in the order in which they were added.
pub record TurnsAreNumbered (d : Db) : Type 0 where
  pub numbered :
      (call_id : String)
      → indices call_id d.call_turns ≡ up_to (count (of_call call_id) d.call_turns)

indices-append_on :
    (k : String) (ts : List CallTurnModel) (t : CallTurnModel)
    → (t.call_id == k) ≡ true
    → indices k (ts ++ t ∷ []) ≡ indices k ts ++ t.turn_index ∷ []
indices-append_on k [] t on = rw on refl
indices-append_on k (x ∷ ts) t on = elim (Bool-cases (x.call_id == k)) [
  | inl e ↦ rw e (ap (λ (ns : List ℕ). x.turn_index ∷ ns) (indices-append_on k ts t on))
  | inr e ↦ rw e (indices-append_on k ts t on)
]

indices-append_off :
    (k : String) (ts : List CallTurnModel) (t : CallTurnModel)
    → (t.call_id == k) ≡ false
    → indices k (ts ++ t ∷ []) ≡ indices k ts
indices-append_off k [] t off = rw off refl
indices-append_off k (x ∷ ts) t off = elim (Bool-cases (x.call_id == k)) [
  | inl e ↦ rw e (ap (λ (ns : List ℕ). x.turn_index ∷ ns) (indices-append_off k ts t off))
  | inr e ↦ rw e (indices-append_off k ts t off)
]

module _ (k : String) (ts : List CallTurnModel) (t : CallTurnModel) where
  count-append_on :
      (t.call_id == k) ≡ true → count (of_call k) (ts ++ t ∷ []) ≡ suc (count (of_call k) ts)
  count-append_on on = ground (arith, count-append (of_call k) ts (t ∷ []))

  count-append_off :
      (t.call_id == k) ≡ false → count (of_call k) (ts ++ t ∷ []) ≡ count (of_call k) ts
  count-append_off off = ground (arith, count-append (of_call k) ts (t ∷ []))

-- A turn that gets the number of the turns of its call keeps the numbering.
pub append-TurnsAreNumbered :
    (d d' : Db) (t : CallTurnModel)
    → TurnsAreNumbered d
    → t.turn_index ≡ count (of_call t.call_id) d.call_turns
    → d'.call_turns ≡ d.call_turns ++ t ∷ []
    → TurnsAreNumbered d'
append-TurnsAreNumbered d d' t old index after = record {
  numbered = λ k. elim (Bool-cases (t.call_id == k)) [
    | inl on ↦
        rw
          (
            after,
            indices-append_on k d.call_turns t on,
            count-append_on k d.call_turns t on,
            old.numbered k,
            index,
            (eq_iff t.call_id k).0 on,
          )
          refl
    | inr off ↦
        rw (after, indices-append_off k d.call_turns t off, count-append_off k d.call_turns t off)
          (old.numbered k)
  ];
}
