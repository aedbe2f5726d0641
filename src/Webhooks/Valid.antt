-- ===== src/Webhooks/Valid.antt =====
-- The states of a delivery row (store.py, `_attempt_webhook_delivery`), and that an attempt leads
-- from one to another.
use real_voice_agent_free.Prelude.{
  ℕ, ◌+◌, ◌*◌, ◌-◌, ◌^◌, ◌≤◌, ◌<◌, ◌≡◌, refl, max, true, Option, none, some, DateTime, seconds,
  arith, leb, is_some, inl, inr, ◌⊎◌, Bool-cases, leb→le,
}
use native.Mathlib.Nat.{one-le-pow}
use real_voice_agent_free.Env.{Settings, DeliveryResult}
use real_voice_agent_free.Models.{DeliveryStatus, WebhookDeliveryModel}
use real_voice_agent_free.Webhooks.Defs.{next_webhook_attempt_at, settle}

abbrev pub IsNone : Option DateTime → Type 0
IsNone none = Unit
IsNone (some t) = ⊥

-- The next attempt lies after the last one.
abbrev pub IsLater : Option DateTime → Option DateTime → Type 0
IsLater (some last) (some next) = last < next
IsLater _ _ = ⊥

-- What a status says of the other columns of its row.
abbrev pub StatusFits : Settings → DeliveryStatus → WebhookDeliveryModel → Type 0
StatusFits s DeliveryStatus.pending d = (d.attempt_count ≡ 0) × (d.delivered_at ≡ none)
StatusFits s DeliveryStatus.delivered d =
    (1 ≤ d.attempt_count)
    × (d.next_attempt_at ≡ none)
    × (d.delivered_at ≡ d.last_attempt_at)
    × (is_some d.delivered_at ≡ true)
    × (d.last_error ≡ none)
StatusFits s DeliveryStatus.retry_scheduled d =
    (1 ≤ d.attempt_count)
    × (d.attempt_count < s.webhook_max_attempts)
    × IsLater d.last_attempt_at d.next_attempt_at
    × (d.delivered_at ≡ none)
StatusFits s DeliveryStatus.failed d = (d.next_attempt_at ≡ none) × (d.delivered_at ≡ none)

abbrev pub DeliveryIsValid : Settings → WebhookDeliveryModel → Type 0
DeliveryIsValid s d = StatusFits s d.status d

delay_pos : (b n : ℕ) → 1 ≤ max 1 b * 2 ^ n
delay_pos b n = grind (arith, one-le-pow n 2)

-- There is a next attempt exactly while attempts are left, and it lies in the future.
pub next_webhook_attempt_at_cases :
    (s : Settings) (n now : ℕ)
    → ((s.webhook_max_attempts ≤ n) × (next_webhook_attempt_at s n now ≡ none))
      ⊎ ((n < s.webhook_max_attempts)
          × ((t : ℕ) × (next_webhook_attempt_at s n now ≡ some t) × (now < t)))
unfolding next_webhook_attempt_at
next_webhook_attempt_at_cases s n now = elim (Bool-cases (leb s.webhook_max_attempts n)) [
  | inl e ↦ rw e (inl (leb→le _ _ e, refl))
  | inr e ↦ rw e (
      inr (
        ground arith,
        (
          now + seconds (max 1 s.webhook_retry_backoff_seconds * 2 ^ max 0 (n - 1)),
          refl,
          omega (arith, delay_pos s.webhook_retry_backoff_seconds (max 0 (n - 1))),
        ),
      ))
]

pub settle-DeliveryIsValid :
    (s : Settings) (d : WebhookDeliveryModel) (r : DeliveryResult) (now : DateTime)
    → DeliveryIsValid s (settle s d r now)
unfolding settle
settle-DeliveryIsValid s d r now =
    ground (arith, next_webhook_attempt_at_cases s (d.attempt_count + 1) now)
