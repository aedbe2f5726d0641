-- ===== src/Session/Frame.antt =====
-- What session code leaves alone: the committed state until it commits, and the rows of a table
-- under other keys than those that it writes.
use real_voice_agent_free.Prelude.{
  ℕ, String, ◌==◌, ◌≡◌, refl, Bool, true, false, some, Option, List, [], ◌∷◌, find, any, arith, inl,
  inr, Bool-cases, eq_iff,
}
use real_voice_agent_free.Errors.{Failure, Result, ok, err}
use real_voice_agent_free.Env.{Env}
use real_voice_agent_free.Db.{Db, Table}
use real_voice_agent_free.Session.Defs.{
  World, M, ◌>>=◌, continue, new_id, insert, save, delete, commit, replace,
}
use real_voice_agent_free.Session.Keeps.{Keeps, keeps_rules, WritesRows}
use real_voice_agent_free.Session.Inversion.{committed}

-- The committed state is `d`.
pub record DiskIs (d : Db) (w : World) : Type 0 where
  pub same : w.disk ≡ d

module _ (d : Db) where
  pub DiskIs-new_id : (env : Env) (kind : String) (n : ℕ) → Keeps (DiskIs d) (new_id env kind n)
  unfolding new_id
  DiskIs-new_id env kind n = record { at = λ w h. record { same = h.same } }

  pub DiskIs-insert : {A : Type 0} (t : Table A) (r : A) → Keeps (DiskIs d) (insert t r)
  unfolding insert
  DiskIs-insert t r = record {
    at = λ w h. elim (Bool-cases (any (λ x. t.key x == t.key r) (t.rows w.view))) [
      | inl e ↦ rw e h
      | inr e ↦ rw e (record { same = h.same })
    ];
  }

  pub DiskIs-save : {A : Type 0} (t : Table A) (r : A) → Keeps (DiskIs d) (save t r)
  unfolding save
  DiskIs-save t r = record { at = λ w h. record { same = h.same } }

  pub DiskIs-delete : {A : Type 0} (t : Table A) (r : A) → Keeps (DiskIs d) (delete t r)
  unfolding delete
  DiskIs-delete t r = record { at = λ w h. record { same = h.same } }

pub ruleset disk_rules = (keeps_rules, DiskIs-new_id, DiskIs-insert, DiskIs-save, DiskIs-delete)

-- A body that ends in a commit and raises has changed nothing that is committed.
module _ {A B : Type 0} (m : M A) (g : A → B) where
  continue-rolls_back :
      (r : Result A) (w : World) (e : Failure)
      → (continue r (committed g) w).0 ≡ err e
      → (continue r (committed g) w).1.disk ≡ w.disk
  unfolding commit ◌>>=◌
  continue-rolls_back (ok a) w e h = cc
  continue-rolls_back (err x) w e h = refl

  pub committed-rolls_back :
      ((d : Db) → Keeps (DiskIs d) m)
      → (w : World) (e : Failure) → ((m >>= committed g) w).0 ≡ err e
      → ((m >>= committed g) w).1.disk ≡ w.disk
  unfolding ◌>>=◌
  committed-rolls_back keep w e h =
      rw (continue-rolls_back (m w).0 (m w).1 e h)
        ((keep w.disk).at w (record { same = refl })).same

-- The row that the session sees under a key.
pub record RowIs {A : Type 0} (t : Table A) (k : String) (o : Option A) (w : World) : Type 0 where
  pub same : find (λ r. t.key r == k) (t.rows w.view) ≡ o

find-replace_ne :
    {A : Type 0} (key : A → String) (k : String) (r : A) (xs : List A)
    → (key r == k) ≡ false
    → find (λ x. key x == k) (replace key r xs) ≡ find (λ x. key x == k) xs
find-replace_ne key k r [] ne = refl
find-replace_ne key k r (x ∷ xs) ne = ground (
  arith,
  find-replace_ne key k r xs ne,
  eq_iff (key x) (key r),
  eq_iff (key r) k,
  eq_iff (key x) k,
)

pub find-replace :
    {A : Type 0} (key : A → String) (p : A → Bool) (r : A) (xs : List A) (a : A)
    → find p xs ≡ some a
    → p r ≡ true
    → ((x : A) → p x ≡ true → (key x == key r) ≡ true)
    → find p (replace key r xs) ≡ some r
find-replace key p r [] a h t only = ground arith
find-replace key p r (x ∷ xs) a h t only = elim (Bool-cases (key x == key r)) [
  | inl e ↦ rw e (rw t refl)
  | inr e ↦ elim (Bool-cases (p x)) [
    | inl here ↦ absurd (ground (arith, only x here))
    | inr there ↦ rw e (rw there (find-replace key p r xs a (rw there at h) t only))
  ]
]

module _ {A : Type 0} (t : Table A) (k : String) (o : Option A) where
  pub RowIs-save_ne :
      WritesRows t → (r : A) → (t.key r == k) ≡ false → Keeps (RowIs t k o) (save t r)
  unfolding save
  RowIs-save_ne put r ne = record {
    at = λ w h. record { same = rw put (rw (find-replace_ne t.key k r (t.rows w.view) ne) h.same) };
  }
