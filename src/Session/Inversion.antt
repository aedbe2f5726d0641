-- ===== src/Session/Inversion.antt =====
-- What a run of session code that returned tells of its parts.
use real_voice_agent_free.Prelude.{
  ap, ◌≡◌, refl, Option, none, some, arith, false, [], ◌∷◌, ◌++◌, any, ◌==◌, inl, inr, Bool-cases,
}
use real_voice_agent_free.Errors.{VoiceAgentError, Failure, Result, ok, err}
use real_voice_agent_free.Session.Defs.{World, M, continue, pure, ◌>>=◌, require, insert, commit}
use real_voice_agent_free.Db.{Table}

pub ok_inj : {A : Type 0} (a b : A) → ok a ≡ ok b → a ≡ b
ok_inj a b h = cc

pub err_ne_ok : {A : Type 0} {e : Failure} {a : A} → err e ≡ ok a → ⊥
err_ne_ok h = cc

module _ {A B : Type 0} where
  continue-eq-ok :
      (r : Result A) (f : A → M B) (w : World) (b : B)
      → (continue r f w).0 ≡ ok b
      → (a : A) × (r ≡ ok a) × (continue r f w ≡ f a w)
  continue-eq-ok (ok a) f w b h = (a, refl, refl)
  continue-eq-ok (err e) f w b h = cc

  pub >>=-eq-ok :
      (m : M A) (f : A → M B) (w : World) (b : B)
      → ((m >>= f) w).0 ≡ ok b
      → (a : A) × ((m w).0 ≡ ok a) × ((m >>= f) w ≡ f a (m w).1)
  unfolding ◌>>=◌
  >>=-eq-ok m f w b h = continue-eq-ok (m w).0 f (m w).1 b h

module _ {A B : Type 0} where
  continue-of-ok :
      (r : Result A) (f : A → M B) (w : World) (a : A) → r ≡ ok a → continue r f w ≡ f a w
  continue-of-ok (ok x) f w a h = ap (λ (y : A). f y w) (ok_inj x a h)
  continue-of-ok (err e) f w a h = absurd (err_ne_ok h)

  pub >>=-of-ok :
      (m : M A) (f : A → M B) (w : World) (a : A) → (m w).0 ≡ ok a → (m >>= f) w ≡ f a (m w).1
  unfolding ◌>>=◌
  >>=-of-ok m f w a h = continue-of-ok (m w).0 f (m w).1 a h

pub require-eq-ok :
    {A : Type 0} (o : Option A) (e : VoiceAgentError) (w : World) (a : A)
    → (require o e w).0 ≡ ok a
    → (o ≡ some a) × ((require o e w).1 ≡ w)
unfolding require
require-eq-ok none e w a h = cc
require-eq-ok (some x) e w a h = ground arith

-- A body that ends in a commit: if it returns, the committed state is what it left; if it raises,
-- nothing has been committed.
module _ {A B : Type 0} where
  abbrev pub committed : (A → B) → A → M B
  committed g a = commit >>= λ _. pure (g a)

  continue-committed :
      (g : A → B) (r : Result A) (w : World) (b : B)
      → (continue r (committed g) w).0 ≡ ok b
      → (a : A) × (r ≡ ok a) × (g a ≡ b) × ((continue r (committed g) w).1.disk ≡ w.view)
  unfolding commit ◌>>=◌
  continue-committed g (ok a) w b h = (a, refl, ok_inj (g a) b h, refl)
  continue-committed g (err e) w b h = cc

  pub committed-eq-ok :
      (m : M A) (g : A → B) (w : World) (b : B)
      → ((m >>= committed g) w).0 ≡ ok b
      → (a : A) × ((m w).0 ≡ ok a) × (g a ≡ b) × (((m >>= committed g) w).1.disk ≡ (m w).1.view)
  unfolding ◌>>=◌
  committed-eq-ok m g w b h = continue-committed g (m w).0 (m w).1 b h

-- An insert that returned: the key was free, and the row stands last.
pub insert-eq-ok :
    {A : Type 0} (t : Table A) (r : A) (w : World) (u : Unit)
    → (insert t r w).0 ≡ ok u
    → (any (λ x. t.key x == t.key r) (t.rows w.view) ≡ false)
      × ((insert t r w).1 ≡ record w { view = t.write (t.rows w.view ++ r ∷ []) w.view })
unfolding insert
insert-eq-ok t r w u h = elim (Bool-cases (any (λ x. t.key x == t.key r) (t.rows w.view))) [
  | inl taken ↦ absurd (err_ne_ok (rw taken at h))
  | inr free ↦ rw free (refl, refl)
]
