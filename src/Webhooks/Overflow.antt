-- ===== src/Webhooks/Overflow.antt =====
-- The check of a retry's time (store.py, `_next_webhook_attempt_at`): it changes nothing.
use real_voice_agent_free.Prelude.{
  ltb, ◌≡◌, refl, Option, none, some, DateTime, Bool-cases, inl, inr,
}
use real_voice_agent_free.Errors.{Failure, overflow_error}
use real_voice_agent_free.Env.{Env, DispatchStatus}
use real_voice_agent_free.Session.{World, fail, pure}
use real_voice_agent_free.Session.Keeps.{Keeps, Keeps-pure}
use real_voice_agent_free.Webhooks.Defs.{check_overflow}

Keeps-fail : {P : World → Type 0} {A : Type 0} → (e : Failure) → Keeps P (fail {A = A} e)
unfolding fail
Keeps-fail e = record { at = λ w h. h }

pub Keeps-check_overflow :
    {P : World → Type 0}
    → (env : Env) (status : DispatchStatus) (retry_at : Option DateTime)
    → Keeps P (check_overflow env status retry_at)
unfolding check_overflow
Keeps-check_overflow env DispatchStatus.delivered retry_at = Keeps-pure tt
Keeps-check_overflow env DispatchStatus.failed none = Keeps-pure tt
Keeps-check_overflow env DispatchStatus.failed (some at) =
    elim (Bool-cases (ltb env.last_datetime at)) [
      | inl over ↦ rw over (Keeps-fail overflow_error)
      | inr fine ↦ rw fine (Keeps-pure tt)
    ]

pub check_overflow-world :
    (env : Env) (status : DispatchStatus) (retry_at : Option DateTime) (w : World)
    → (check_overflow env status retry_at w).1 ≡ w
unfolding check_overflow pure fail
check_overflow-world env DispatchStatus.delivered retry_at w = refl
check_overflow-world env DispatchStatus.failed none w = refl
check_overflow-world env DispatchStatus.failed (some at) w =
    elim (Bool-cases (ltb env.last_datetime at)) [
      | inl over ↦ rw over refl
      | inr fine ↦ rw fine refl
    ]
