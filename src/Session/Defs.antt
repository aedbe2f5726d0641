-- ===== src/Session/Defs.antt =====
-- A database session (apps/api/src/voiceagent_api/db.py, SessionLocal) as a state monad with
-- exceptions. What is not committed when the session closes is rolled back; requests that were
-- sent stay sent. Every `add` is flushed at once.
use real_voice_agent_free.Prelude.{
  ℕ, ◌+◌, String, ◌==◌, Bool, true, false, Option, none, some, List, [], ◌∷◌, ◌++◌, find, filter,
  any, count, prefix, concat, if◌then◌else◌,
}
use real_voice_agent_free.Errors.{
  VoiceAgentError, Failure, raised, integrity_error, Result, ok, err,
}
use real_voice_agent_free.Env.{Env, Post, CacheWrite}
use real_voice_agent_free.Db.{Db, Table}

pub record World : Type 0 where
  -- what is committed
  pub disk : Db
  -- what the open session sees
  pub view : Db
  -- calls of `uuid4` and of bcrypt's `gensalt` so far
  pub draws : ℕ
  -- requests that the webhook dispatcher has sent, oldest first
  pub posts : List Post
  -- writes that the idempotency cache has got, oldest first
  pub cache : List CacheWrite

abbrev pub M : Type 0 → Type 0
M A = World → Result A × World

module _ {A : Type 0} where
  unfoldable pub pure : A → M A
  pure a w = (ok a, w)

  unfoldable pub fail : Failure → M A
  fail e w = (err e, w)

  unfoldable pub raise : VoiceAgentError → M A
  unfolding fail
  raise e = fail (raised e)

module _ {A B : Type 0} where
  abbrev pub continue : Result A → (A → M B) → World → Result B × World
  continue (ok a) f w = f a w
  continue (err e) f w = (err e, w)

  infixl 10 ◌>>=◌ ◌>>◌
  -- opening this opens the actions above too
  unfoldable pub ◌>>=◌ : M A → (A → M B) → M B
  unfolding pure fail raise
  ◌>>=◌ m f w = let (r, w') = m w in continue r f w'

  abbrev pub ◌>>◌ : M A → M B → M B
  m >> n = m >>= λ _. n

-- `if x is None: raise e`
unfoldable pub require : {A : Type 0} → Option A → VoiceAgentError → M A
unfolding pure raise
require none e = raise e
require (some a) e = pure a

-- `uuid4().hex[:n]` after a prefix of the id
unfoldable pub new_id : Env → String → ℕ → M String
new_id env kind n w =
    (ok (concat (kind ∷ prefix n (env.uuid_hex w.draws) ∷ [])), record w { draws = w.draws + 1 })

abbrev pub replace : {A : Type 0} → (A → String) → A → List A → List A
replace key r [] = []
replace key r (x ∷ xs) = (if key x == key r then r else x) ∷ replace key r xs

module _ {A : Type 0} where
  -- `session.scalars(select(Model).where(...)).all()`
  unfoldable pub select : Table A → (A → Bool) → M (List A)
  select t p w = (ok (filter p (t.rows w.view)), w)

  -- `session.scalar(select(Model).where(...))`
  unfoldable pub scalar : Table A → (A → Bool) → M (Option A)
  scalar t p w = (ok (find p (t.rows w.view)), w)

  -- `session.scalar(select(func.count()).select_from(Model).where(...))`
  unfoldable pub count_rows : Table A → (A → Bool) → M ℕ
  count_rows t p w = (ok (count p (t.rows w.view)), w)

  -- `session.get(Model, id)`
  unfoldable pub get : Table A → String → M (Option A)
  get t k w = (ok (find (λ r. t.key r == k) (t.rows w.view)), w)

  -- `session.add` of a new object
  unfoldable pub insert : Table A → A → M Unit
  insert t r w =
      if any (λ x. t.key x == t.key r) (t.rows w.view)
      then (err (integrity_error (t.key r)), w)
      else (ok tt, record w { view = t.write (t.rows w.view ++ r ∷ []) w.view })

  -- `session.add` of an object that was read and changed
  unfoldable pub save : Table A → A → M Unit
  save t r w = (ok tt, record w { view = t.write (replace t.key r (t.rows w.view)) w.view })

  -- `session.delete`
  unfoldable pub delete : Table A → A → M Unit
  delete t r w = (
    ok tt,
    record w {
      view =
          t.write (filter (λ x. if t.key x == t.key r then false else true) (t.rows w.view)) w.view;
    },
  )

unfoldable pub commit : M Unit
commit w = (ok tt, record w { disk = w.view })

-- `with SessionLocal() as session:`
unfoldable pub session : {A : Type 0} → M A → M A
session m w = let (r, w') = m (record w { view = w.disk }) in (r, record w' { view = w'.disk })
