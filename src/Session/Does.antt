-- ===== src/Session/Does.antt =====
-- What session code leaves when it returns: a condition on the tables before, and one on the tables
-- after that may name the returned value.
use real_voice_agent_free.Prelude.{
  ℕ, String, ◌≡◌, refl, ◌⊎◌, inl, inr, Bool, Option, some, [], ◌∷◌, ◌++◌, find, count, filter, any,
  ◌==◌, false, subst, sym, ◌∙◌,
}
use real_voice_agent_free.Errors.{VoiceAgentError, Failure, Result, ok, err}
use real_voice_agent_free.Env.{Env}
use real_voice_agent_free.Db.{Db, Table}
use real_voice_agent_free.Session.Defs.{
  World, M, pure, raise, select, ◌>>=◌, require, new_id, scalar, get, count_rows, insert, save,
  session, replace,
}
use real_voice_agent_free.Session.Keeps.{Keeps}
use real_voice_agent_free.Session.Frame.{DiskIs, committed-rolls_back}
use real_voice_agent_free.Session.Inversion.{
  ok_inj, err_ne_ok, >>=-eq-ok, require-eq-ok, insert-eq-ok, committed, committed-eq-ok,
}

pub record Does {A : Type 0} (P : Db → Type 0) (m : M A) (Q : A → Db → Type 0) : Type 0 where
  pub post : (w : World) (a : A) → P w.view → (m w).0 ≡ ok a → Q a (m w).1.view

-- What is known of the tables that the session sees.
pub record Sees (P : Db → Type 0) (w : World) : Type 0 where
  pub seen : P w.view

module _ {A : Type 0} {P : Db → Type 0} where
  pub Does-Keeps : (m : M A) → Keeps (Sees P) m → Does P m (λ a. P)
  Does-Keeps m k = record { post = λ w a h e. (k.at w (record { seen = h })).seen }

  pub Does-scalar :
      (t : Table A) (p : A → Bool) → Does P (scalar t p) (λ o d. P d × (find p (t.rows d) ≡ o))
  unfolding scalar
  Does-scalar t p = record { post = λ w a h e. (h, ok_inj (find p (t.rows w.view)) a e) }

  pub Does-get :
      (t : Table A) (k : String)
      → Does P (get t k) (λ o d. P d × (find (λ r. t.key r == k) (t.rows d) ≡ o))
  unfolding get
  Does-get t k = record {
    post = λ w a h e. (h, ok_inj (find (λ r. t.key r == k) (t.rows w.view)) a e);
  }

  pub Does-select :
      (t : Table A) (p : A → Bool) → Does P (select t p) (λ xs d. P d × (filter p (t.rows d) ≡ xs))
  unfolding select
  Does-select t p = record { post = λ w a h e. (h, ok_inj (filter p (t.rows w.view)) a e) }

  pub Does-count_rows :
      (t : Table A) (p : A → Bool) → Does P (count_rows t p) (λ n d. P d × (count p (t.rows d) ≡ n))
  unfolding count_rows
  Does-count_rows t p = record { post = λ w a h e. (h, ok_inj (count p (t.rows w.view)) a e) }

  pub Does-require :
      (o : Option A) (e : VoiceAgentError) → Does P (require o e) (λ a d. P d × (o ≡ some a))
  Does-require o e = record {
    post = λ w a h r.
        let (is, same) = require-eq-ok o e w a r in
        (subst (λ (w' : World). P w'.view) (sym same) h, is);
  }

  pub Does-insert :
      (Q : Db → Type 0) (t : Table A) (r : A)
      → ((d : Db)
          → P d
          → any (λ x. t.key x == t.key r) (t.rows d) ≡ false
          → Q (t.write (t.rows d ++ r ∷ []) d))
      → Does P (insert t r) (λ u. Q)
  Does-insert Q t r step = record {
    post = λ w u h e.
        let (free, after) = insert-eq-ok t r w u e in
        subst (λ (w' : World). Q w'.view) (sym after) (step w.view h free);
  }

  pub Does-save :
      (Q : Db → Type 0) (t : Table A) (r : A)
      → ((d : Db) → P d → Q (t.write (replace t.key r (t.rows d)) d))
      → Does P (save t r) (λ u. Q)
  unfolding save
  Does-save Q t r step = record { post = λ w u h e. step w.view h }

  pub Does-raise : (Q : A → Db → Type 0) (e : VoiceAgentError) → Does P (raise e) Q
  unfolding raise
  Does-raise Q e = record { post = λ w a h r. absurd (err_ne_ok r) }

  pub Does-pure : (Q : A → Db → Type 0) (a : A) → ((d : Db) → P d → Q a d) → Does P (pure a) Q
  unfolding pure
  Does-pure Q a step = record {
    post = λ w b h e. subst (λ (x : A). Q x w.view) (ok_inj a b e) (step w.view h);
  }

-- Facts that the condition before has about no table, and a weaker condition before.
module _ {A : Type 0} {P : Db → Type 0} {Q : A → Db → Type 0} where
  pub Does-given : {F : Type 0} → (m : M A) → ((d : Db) → P d → F) → (F → Does P m Q) → Does P m Q
  Does-given m fact does = record { post = λ w a h e. (does (fact w.view h)).post w a h e }

  pub Does-before :
      {P' : Db → Type 0} → (m : M A) → ((d : Db) → P' d → P d) → Does P m Q → Does P' m Q
  Does-before m weaken does = record { post = λ w a h e. does.post w a (weaken w.view h) e }

pub Does-new_id :
    {P : Db → Type 0} → (env : Env) (kind : String) (n : ℕ) → Does P (new_id env kind n) (λ id. P)
unfolding new_id
Does-new_id env kind n = record { post = λ w a h e. h }

module _ {A B : Type 0} {P : Db → Type 0} {R : A → Db → Type 0} {Q : B → Db → Type 0} where
  pub Does-bind :
      (m : M A) (f : A → M B) → Does P m R → ((a : A) → Does (R a) (f a) Q) → Does P (m >>= f) Q
  Does-bind m f first rest = record {
    post = λ w b h e.
        let (a, ran, tail) = >>=-eq-ok m f w b e in
        subst (λ (p : Result B × World). Q b p.1.view) (sym tail)
          ((rest a).post (m w).1 b (first.post w a h ran)
            (subst (λ (p : Result B × World). p.0 ≡ ok b) tail e));
  }

-- A row that was looked up and required is the one in the table.
pub Does-found :
    {A : Type 0} {P : Db → Type 0}
    → (t : Table A) (p : A → Bool) (e : VoiceAgentError)
    → Does P (scalar t p >>= λ o. require o e) (λ a d. P d × (find p (t.rows d) ≡ some a))
Does-found {A} {P} t p e = Does-bind _ _ (Does-scalar t p) λ o. record {
  post = λ w a h r.
      let got = (Does-require {P = λ d. P d × (find p (t.rows d) ≡ o)} o e).post w a h r in
      (got.0.0, got.0.1 ∙ got.1);
}

-- A session that ends in a commit and returned has committed what its body left.
module _ {A B : Type 0} {P : Db → Type 0} {Q : A → Db → Type 0} where
  pub session-commits :
      (m : M A) (g : A → B)
      → Does P m Q
      → (w : World) (b : B) → P w.disk
      → (session (m >>= committed g) w).0 ≡ ok b
      → (a : A) × (g a ≡ b) × Q a (session (m >>= committed g) w).1.disk
  unfolding session
  session-commits m g does w b h e =
      let (a, ran, is, disk) = committed-eq-ok m g (record w { view = w.disk }) b e in
      (a, is, subst (λ (d : Db). Q a d) (sym disk) (does.post (record w { view = w.disk }) a h ran))

ran-or-not : {A : Type 0} → (r : Result A) → ((a : A) × (r ≡ ok a)) ⊎ ((x : Failure) × (r ≡ err x))
ran-or-not (ok a) = inl (a, refl)
ran-or-not (err x) = inr (x, refl)

-- A session that raised has committed nothing.
module _ {A B : Type 0} (m : M A) (g : A → B) (keeps : (d : Db) → Keeps (DiskIs d) m) where
  pub session-rolls_back :
      (w : World) (x : Failure)
      → (session (m >>= committed g) w).0 ≡ err x
      → (session (m >>= committed g) w).1.disk ≡ w.disk
  unfolding session
  session-rolls_back w x e = committed-rolls_back m g keeps (record w { view = w.disk }) x e

-- A condition that the body keeps is kept by the whole session, whether it returns or raises.
module _ {A B : Type 0} {P : Db → Type 0} where
  pub session-preserves :
      (m : M A) (g : A → B)
      → Does P m (λ a. P)
      → ((d : Db) → Keeps (DiskIs d) m)
      → (w : World) → P w.disk
      → P (session (m >>= committed g) w).1.disk
  session-preserves m g does keeps w h = elim (ran-or-not (session (m >>= committed g) w).0) [
    | inl (b, e) ↦ (session-commits m g does w b h e).2
    | inr (x, e) ↦ subst P (sym (session-rolls_back m g keeps w x e)) h
  ]
