-- ===== src/Routers/Paging.antt =====
-- Pages of a listing (routers/_helpers.py, the `*_paginated` methods of store.py and the routes that
-- call them): how many rows are on a page, and whose.
use real_voice_agent_free.Prelude.{
  ℕ, ◌-◌, ℤ, pos, negsuc, none, All, min, String, ◌==◌, ◌≡◌, true, false, Option, some, List,
  length, count,
}
use real_voice_agent_free.Json.{Json}
use real_voice_agent_free.Models.{
  AgentModel, CallModel, BookingModel, WebhookSubscriptionModel, EventModel,
}
use real_voice_agent_free.Serialize.{
  serialize_agent, serialize_call, serialize_booking, serialize_event,
}
use real_voice_agent_free.Db.{Db}
use real_voice_agent_free.Env.{Env, limited, Window}
use real_voice_agent_free.Session.{M}
use real_voice_agent_free.Auth.{AuthContext}
use real_voice_agent_free.Webhooks.{serialize_webhook}
use real_voice_agent_free.Routers.Pages.{normalize_pagination}
use real_voice_agent_free.Routers.Agents.{list_agents_route}
use real_voice_agent_free.Routers.Calls.{list_calls_route}
use real_voice_agent_free.Routers.Bookings.{list_bookings_route}
use real_voice_agent_free.Routers.Webhooks.{list_webhooks_route, list_events_route}

-- The listings that have a paginated method and a route.
pub data Listing : Type 0 where
  agents calls bookings webhooks events : Listing

unfoldable pub list_page : Env → Listing → AuthContext → Option ℤ → ℤ → M (List Json × ℕ)
list_page env agents auth limit offset = list_agents_route env auth limit offset
list_page env calls auth limit offset = list_calls_route env auth limit offset
list_page env bookings auth limit offset = list_bookings_route env auth limit offset
list_page env webhooks auth limit offset = list_webhooks_route env auth limit offset
list_page env events auth limit offset = list_events_route env auth limit offset

-- How many rows a request asks for: at most a hundred, which is also what it gets that names no
-- limit; none for a negative limit.
abbrev pub asked_for : Option ℤ → ℕ
asked_for none = 100
asked_for (some (pos n)) = min n 100
asked_for (some (negsuc n)) = 0

-- how many rows it skips
abbrev pub skipped : ℤ → ℕ
skipped (pos n) = n
skipped (negsuc n) = 0

-- how many rows of a listing are those of an organization
abbrev pub owned : Listing → String → Db → ℕ
owned agents org d = count (λ r. r.organization_id == org) d.agents
owned calls org d = count (λ r. r.organization_id == org) d.calls
owned bookings org d = count (λ r. r.organization_id == org) d.bookings
owned webhooks org d = count (λ r. r.organization_id == org) d.webhook_subscriptions
owned events org d = count (λ r. r.tenant_id == org) d.events

-- It is a row of the organization that is written out.
abbrev pub IsOwn : Listing → String → Json → Type 0
IsOwn agents org j =
    (r : AgentModel) × (j ≡ serialize_agent r) × ((r.organization_id == org) ≡ true)
IsOwn calls org j = (r : CallModel) × (j ≡ serialize_call r) × ((r.organization_id == org) ≡ true)
IsOwn bookings org j =
    (r : BookingModel) × (j ≡ serialize_booking r) × ((r.organization_id == org) ≡ true)
IsOwn webhooks org j =
    (r : WebhookSubscriptionModel) × (j ≡ serialize_webhook r false)
    × ((r.organization_id == org) ≡ true)
IsOwn events org j = (r : EventModel) × (j ≡ serialize_event r) × ((r.tenant_id == org) ≡ true)

-- What a listing answers.
abbrev pub IsPage : (Json → Type 0) → ℕ → Option ℤ → ℤ → List Json × ℕ → Type 0
IsPage Own owned limit offset (rows, total) =
    (total ≡ owned) × (length rows ≡ min (asked_for limit) (owned - skipped offset)) × All Own rows

abbrev window_of : Option ℤ → ℤ → Window
window_of limit offset =
    limited (normalize_pagination limit offset).0 (normalize_pagination limit offset).1
