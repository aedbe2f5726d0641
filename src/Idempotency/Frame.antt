-- ===== src/Idempotency/Frame.antt =====
-- Handlers leave the stored responses alone: what `route-twice` asks of a handler.
use real_voice_agent_free.Prelude.{ℕ, String, ◌==◌, ◌≡◌, refl, ◌∙◌, List, any, inl, inr, Bool-cases}
use real_voice_agent_free.Env.{Env, CacheWrite}
use real_voice_agent_free.Models.{IdempotencyKeyModel}
use real_voice_agent_free.Db.{Db, Table}
use real_voice_agent_free.Session.{World, M, new_id, insert, save, commit, session}
use real_voice_agent_free.Session.Keeps.{Keeps}
use real_voice_agent_free.Idempotency.Defs.{Request}
use real_voice_agent_free.Idempotency.Replay.{IsFresh}

-- The stored responses are these, both what is committed and what the session sees.
pub record KeysAre (rows : List IdempotencyKeyModel) (log : List CacheWrite) (w : World)
    : Type 0 where
  pub on_disk : w.disk.idempotency_keys ≡ rows
  pub in_view : w.view.idempotency_keys ≡ rows
  pub cached : w.cache ≡ log

module _ (rows : List IdempotencyKeyModel) (log : List CacheWrite) where
  pub KeysAre-new_id :
      (env : Env) (kind : String) (n : ℕ) → Keeps (KeysAre rows log) (new_id env kind n)
  unfolding new_id
  KeysAre-new_id env kind n = record {
    at = λ w h. record { on_disk = h.on_disk; in_view = h.in_view; cached = h.cached };
  }

  pub KeysAre-commit : Keeps (KeysAre rows log) commit
  unfolding commit
  KeysAre-commit = record {
    at = λ w h. record { on_disk = h.in_view; in_view = h.in_view; cached = h.cached };
  }

  pub KeysAre-insert :
      {A : Type 0} (t : Table A)
      → ((xs : List A) (d : Db) → (t.write xs d).idempotency_keys ≡ d.idempotency_keys)
      → (r : A) → Keeps (KeysAre rows log) (insert t r)
  unfolding insert
  KeysAre-insert t apart r = record {
    at = λ w h. elim (Bool-cases (any (λ x. t.key x == t.key r) (t.rows w.view))) [
      | inl e ↦ rw e h
      | inr e ↦
          rw e (record {
            on_disk = h.on_disk;
            in_view = apart _ w.view ∙ h.in_view;
            cached = h.cached;
          })
    ];
  }

  pub KeysAre-save :
      {A : Type 0} (t : Table A)
      → ((xs : List A) (d : Db) → (t.write xs d).idempotency_keys ≡ d.idempotency_keys)
      → (r : A) → Keeps (KeysAre rows log) (save t r)
  unfolding save
  KeysAre-save t apart r = record {
    at = λ w h. record {
      on_disk = h.on_disk;
      in_view = apart _ w.view ∙ h.in_view;
      cached = h.cached;
    };
  }

-- A session of such steps keeps a request fresh.
pub session-IsFresh :
    {A : Type 0} (env : Env) (q : Request) (m : M A)
    → ((rows : List IdempotencyKeyModel) (log : List CacheWrite) → Keeps (KeysAre rows log) m)
    → Keeps (IsFresh env q) (session m)
unfolding session
session-IsFresh env q m keep = record {
  at = λ w f.
      let h =
        (keep w.disk.idempotency_keys w.cache).at (record w { view = w.disk })
          (record { on_disk = refl; in_view = refl; cached = refl }) in
      record { no_record = rw h.on_disk f.no_record; no_write = rw h.cached f.no_write };
}
