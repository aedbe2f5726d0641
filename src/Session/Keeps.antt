-- ===== src/Session/Keeps.antt =====
-- Invariants of session code: one rule for each way to build it. An action keeps an invariant
-- whether it returns or raises.
use real_voice_agent_free.Prelude.{
  ℕ, String, ◌≡◌, refl, Bool, true, false, Option, none, some, List, [], ◌∷◌, All, All-append, any,
  Bool-cases, inl, inr, if◌then◌else◌, ◌==◌,
}
use real_voice_agent_free.Errors.{VoiceAgentError, Result, ok, err}
use real_voice_agent_free.Env.{Env}
use real_voice_agent_free.Db.{Db, Table}
use real_voice_agent_free.Session.Defs.{
  World, M, pure, raise, ◌>>=◌, continue, require, new_id, select, scalar, count_rows, get, insert,
  save, delete, commit, session, replace,
}

pub record Keeps {A : Type 0} (P : World → Type 0) (m : M A) : Type 0 where
  pub at : (w : World) → P w → P (m w).1

-- Every row of a table satisfies `Q`, both what is committed and what the session sees.
pub record Holds {A : Type 0} (t : Table A) (Q : A → Type 0) (w : World) : Type 0 where
  pub on_disk : All Q (t.rows w.disk)
  pub in_view : All Q (t.rows w.view)

module _ {A : Type 0} {P : World → Type 0} where
  pub Keeps-require : (o : Option A) (e : VoiceAgentError) → Keeps P (require o e)
  unfolding require
  Keeps-require none e = record { at = λ w h. h }
  Keeps-require (some a) e = record { at = λ w h. h }

  pub Keeps-select : (t : Table A) (p : A → Bool) → Keeps P (select t p)
  unfolding select
  Keeps-select t p = record { at = λ w h. h }

  pub Keeps-scalar : (t : Table A) (p : A → Bool) → Keeps P (scalar t p)
  unfolding scalar
  Keeps-scalar t p = record { at = λ w h. h }

  pub Keeps-count_rows : (t : Table A) (p : A → Bool) → Keeps P (count_rows t p)
  unfolding count_rows
  Keeps-count_rows t p = record { at = λ w h. h }

  pub Keeps-get : (t : Table A) (k : String) → Keeps P (get t k)
  unfolding get
  Keeps-get t k = record { at = λ w h. h }

  pub Keeps-pure : (a : A) → Keeps P (pure a)
  unfolding pure
  Keeps-pure a = record { at = λ w h. h }

  pub Keeps-raise : (e : VoiceAgentError) → Keeps {A = A} P (raise e)
  unfolding raise
  Keeps-raise e = record { at = λ w h. h }

  pub Keeps-if :
      {yes no : M A}
      → (test : Bool) → (test ≡ false → Keeps P no)
      → (test ≡ true → Keeps P yes)
      → Keeps P (if test then yes else no)
  Keeps-if test otherwise then_ = elim (Bool-cases test) [
    | inl on ↦ rw on (then_ on)
    | inr off ↦ rw off (otherwise off)
  ]

module _ {A B : Type 0} {P : World → Type 0} where
  Keeps-continue :
      (r : Result A) (f : A → M B) (w : World)
      → ((a : A) → r ≡ ok a → Keeps P (f a))
      → P w
      → P (continue r f w).1
  Keeps-continue (ok a) f w k h = (k a refl).at w h
  Keeps-continue (err e) f w k h = h

  pub Keeps-bind :
      (m : M A) (f : A → M B) → Keeps P m → ((a : A) → Keeps P (f a)) → Keeps P (m >>= f)
  unfolding ◌>>=◌
  Keeps-bind m f km kf = record {
    at = λ w h. let (r, w') = m w in Keeps-continue r f w' (λ a _. kf a) (km.at w h);
  }

  -- What follows may use a fact about the returned value.
  pub Keeps-bind-with :
      (Q : A → Type 0) (m : M A) (f : A → M B)
      → ((w : World) → P w → P (m w).1)
      → ((w : World) (a : A) → P w → (m w).0 ≡ ok a → Q a)
      → ((a : A) → Q a → Keeps P (f a))
      → Keeps P (m >>= f)
  unfolding ◌>>=◌
  Keeps-bind-with Q m f km mq kf = record {
    at = λ w h. let (r, w') = m w in Keeps-continue r f w' (λ a e. kf a (mq w a h e)) (km w h);
  }

pub All-replace :
    {A : Type 0} (Q : A → Type 0) (key : A → String) (r : A) (xs : List A)
    → Q r
    → All Q xs
    → All Q (replace key r xs)
All-replace Q key r [] q h = tt
All-replace Q key r (x ∷ xs) q h = elim (Bool-cases (key x == key r)) [
  | inl e ↦ rw e (q, All-replace Q key r xs q h.1)
  | inr e ↦ rw e (h.0, All-replace Q key r xs q h.1)
]

-- Writing rows and reading them gives them back, as for every table of the database.
abbrev pub WritesRows : {A : Type 0} → Table A → Type 0
WritesRows {A} t = (xs : List A) (d : Db) → t.rows (t.write xs d) ≡ xs

module _ {A : Type 0} (t : Table A) (Q : A → Type 0) where
  pub Holds-insert : WritesRows t → (r : A) → Q r → Keeps (Holds t Q) (insert t r)
  unfolding insert
  Holds-insert put r q = record {
    at = λ w h. elim (Bool-cases (any (λ x. t.key x == t.key r) (t.rows w.view))) [
      | inl e ↦ rw e h
      | inr e ↦ rw e (record {
        on_disk = h.on_disk;
        in_view = rw put (All-append Q (t.rows w.view) (r ∷ []) h.in_view (q, tt));
      })
    ];
  }

  pub Holds-save : WritesRows t → (r : A) → Q r → Keeps (Holds t Q) (save t r)
  unfolding save
  Holds-save put r q = record {
    at = λ w h. record {
      on_disk = h.on_disk;
      in_view = rw put (All-replace Q t.key r (t.rows w.view) q h.in_view);
    };
  }

  pub Holds-commit : Keeps (Holds t Q) commit
  unfolding commit
  Holds-commit = record { at = λ w h. record { on_disk = h.in_view; in_view = h.in_view } }

  pub Holds-new_id : (env : Env) (kind : String) (n : ℕ) → Keeps (Holds t Q) (new_id env kind n)
  unfolding new_id
  Holds-new_id env kind n = record {
    at = λ w h. record { on_disk = h.on_disk; in_view = h.in_view };
  }

  pub Holds-session : {B : Type 0} (m : M B) → Keeps (Holds t Q) m → Keeps (Holds t Q) (session m)
  unfolding session
  Holds-session m k = record {
    at = λ w h.
        let h' =
          k.at (record w { view = w.disk }) (record { on_disk = h.on_disk; in_view = h.on_disk }) in
        record { on_disk = h'.on_disk; in_view = h'.on_disk };
  }

-- A write to another table.
module _ {A B : Type 0} (t : Table A) (Q : A → Type 0) (s : Table B) where
  abbrev pub Apart : Type 0
  Apart = (xs : List B) (d : Db) → t.rows (s.write xs d) ≡ t.rows d

  pub Holds-insert_apart : Apart → (r : B) → Keeps (Holds t Q) (insert s r)
  unfolding insert
  Holds-insert_apart apart r = record {
    at = λ w h. elim (Bool-cases (any (λ x. s.key x == s.key r) (s.rows w.view))) [
      | inl e ↦ rw e h
      | inr e ↦ rw e (record { on_disk = h.on_disk; in_view = rw apart h.in_view })
    ];
  }

  pub Holds-save_apart : Apart → (r : B) → Keeps (Holds t Q) (save s r)
  unfolding save
  Holds-save_apart apart r = record {
    at = λ w h. record { on_disk = h.on_disk; in_view = rw apart h.in_view };
  }

  pub Holds-delete_apart : Apart → (r : B) → Keeps (Holds t Q) (delete s r)
  unfolding delete
  Holds-delete_apart apart r = record {
    at = λ w h. record { on_disk = h.on_disk; in_view = rw apart h.in_view };
  }

pub ruleset keeps_rules = (
  Keeps-select, Keeps-scalar, Keeps-count_rows, Keeps-get, Keeps-require, Keeps-pure, Keeps-raise,
  Keeps-bind, Keeps-if,
)
