-- ===== src/Routers/Isolation.antt =====
-- Organizations apart (the GET routes of routers/agents.py, calls.py, bookings.py, webhooks.py and
-- events.py): what a caller reads does not depend on the rows of other organizations.
use real_voice_agent_free.Prelude.{
  ℕ, ℤ, String, ◌==◌, ◌≡◌, refl, sym, ap, ap₂, ◌∙◌, Bool, false, ◌&&◌, Option, List, [], ◌∷◌, map,
  filter, find, count, length-filter, length, arith, page, Option-cases, inl, inr,
}
use real_voice_agent_free.Json.{Json}
use real_voice_agent_free.Errors.{ok}
use real_voice_agent_free.Env.{Env, limited}
use real_voice_agent_free.Db.{Db}
use real_voice_agent_free.Models.{
  AgentModel, CallModel, BookingModel, WebhookSubscriptionModel, EventModel,
}
use real_voice_agent_free.Serialize.{
  serialize_agent, serialize_call, serialize_booking, serialize_event,
}
use real_voice_agent_free.Session.{
  World, M, ◌>>=◌, pure, raise, fail, require, session, select, scalar, count_rows,
}
use real_voice_agent_free.Auth.{AuthContext}
use real_voice_agent_free.Webhooks.{
  serialize_webhook, list_events_paginated, list_webhooks_paginated,
}
use real_voice_agent_free.Calls.{get_call_or_404, get_agent_or_404, get_call, list_calls_paginated}
use real_voice_agent_free.Agents.{get_agent, list_agents_paginated}
use real_voice_agent_free.Bookings.{get_booking_or_404, get_booking, list_bookings_paginated}
use real_voice_agent_free.Routers.Pages.{normalize_pagination}
use real_voice_agent_free.Routers.Agents.{get_agent_route, list_agents_route}
use real_voice_agent_free.Routers.Calls.{get_call_route, list_calls_route}
use real_voice_agent_free.Routers.Bookings.{get_booking_route, list_bookings_route}
use real_voice_agent_free.Routers.Webhooks.{list_webhooks_route, list_events_route}
use real_voice_agent_free.Routers.Paging.{
  Listing, agents, calls, bookings, webhooks, events, list_page,
}

-- The requests that read: a page of a listing, or one row by its id.
pub data Reading : Type 0 where
  rows : Listing → Option ℤ → ℤ → Reading
  agent call booking : String → Reading

pub data Answer : Type 0 where
  listed : List Json × ℕ → Answer
  shown : Json → Answer

unfoldable pub read : Env → AuthContext → Reading → M Answer
read env auth (rows l limit offset) =
    list_page env l auth limit offset >>= λ found. pure (listed found)
read env auth (agent id) = get_agent_route auth id >>= λ found. pure (shown found)
read env auth (call id) = get_call_route auth id >>= λ found. pure (shown found)
read env auth (booking id) = get_booking_route auth id >>= λ found. pure (shown found)

-- Two databases that hold the same rows of an organization, in the same order.
pub record IsSameFor (org : String) (d d' : Db) : Type 0 where
  pub same_agents :
      filter (λ a. a.organization_id == org) d.agents
      ≡ filter (λ a. a.organization_id == org) d'.agents
  pub same_calls :
      filter (λ c. c.organization_id == org) d.calls
      ≡ filter (λ c. c.organization_id == org) d'.calls
  pub same_bookings :
      filter (λ b. b.organization_id == org) d.bookings
      ≡ filter (λ b. b.organization_id == org) d'.bookings
  pub same_webhooks :
      filter (λ h. h.organization_id == org) d.webhook_subscriptions
      ≡ filter (λ h. h.organization_id == org) d'.webhook_subscriptions
  pub same_events :
      filter (λ e. e.tenant_id == org) d.events ≡ filter (λ e. e.tenant_id == org) d'.events

module _ {A : Type 0} (own : A → Bool) (xs ys : List A) (same : filter own xs ≡ filter own ys) where
  find-filter : (p : A → Bool) (zs : List A) → find (λ x. p x && own x) zs ≡ find p (filter own zs)
  find-filter p [] = refl
  find-filter p (z ∷ zs) = ground (arith, find-filter p zs)

  find-same : (p : A → Bool) → find (λ x. p x && own x) xs ≡ find (λ x. p x && own x) ys
  find-same p = find-filter p xs ∙ ap (find p) same ∙ sym (find-filter p ys)

  count-same : count own xs ≡ count own ys
  count-same = sym (length-filter own xs) ∙ ap length same ∙ length-filter own ys

  -- a page of a listing and its total
  abbrev a_page : (List A → List A) → (A → Json) → ℕ → ℕ → List A → List Json × ℕ
  a_page order write limit offset zs =
      (map write (page limit offset (order (filter own zs))), count own zs)

  page-same :
      (order : List A → List A) (write : A → Json) (limit offset : ℕ)
      → a_page order write limit offset xs ≡ a_page order write limit offset ys
  page-same order write limit offset =
      ap₂ (λ (zs : List A) (n : ℕ). (map write (page limit offset (order zs)), n)) same count-same

-- What a caller reads, a page of a listing or one row by its id, is the same in two databases that
-- hold the same rows of the caller's organization, whatever they hold of others: no row of another
-- organization is shown, counted, or told by an error.
pub read-isolated :
    (env : Env) (auth : AuthContext) (q : Reading) (w w' : World)
    → IsSameFor auth.organization_id w.disk w'.disk
    → (read env auth q w).0 ≡ (read env auth q w').0
unfolding read list_page list_agents_route list_agents_paginated list_calls_route
    list_calls_paginated list_bookings_route list_bookings_paginated list_webhooks_route
    list_webhooks_paginated list_events_route list_events_paginated get_agent_route get_agent
    get_agent_or_404 get_call_route get_call get_call_or_404 get_booking_route get_booking
    get_booking_or_404 session select scalar count_rows require pure raise fail ◌>>=◌
read-isolated env auth (rows agents limit offset) w w' same =
    ap (λ (p : List Json × ℕ). ok (listed p))
      (page-same (λ r. r.organization_id == auth.organization_id) w.disk.agents w'.disk.agents
        same.same_agents
        (env.order_asc
          (limited (normalize_pagination limit offset).0 (normalize_pagination limit offset).1)
          AgentModel (λ r. r.created_at))
        serialize_agent _ _)
read-isolated env auth (rows calls limit offset) w w' same =
    ap (λ (p : List Json × ℕ). ok (listed p))
      (page-same (λ r. r.organization_id == auth.organization_id) w.disk.calls w'.disk.calls
        same.same_calls
        (env.order_desc
          (limited (normalize_pagination limit offset).0 (normalize_pagination limit offset).1)
          CallModel (λ r. r.created_at))
        serialize_call _ _)
read-isolated env auth (rows bookings limit offset) w w' same =
    ap (λ (p : List Json × ℕ). ok (listed p))
      (page-same (λ r. r.organization_id == auth.organization_id) w.disk.bookings w'.disk.bookings
        same.same_bookings
        (env.order_desc
          (limited (normalize_pagination limit offset).0 (normalize_pagination limit offset).1)
          BookingModel (λ r. r.created_at))
        serialize_booking _ _)
read-isolated env auth (rows webhooks limit offset) w w' same =
    ap (λ (p : List Json × ℕ). ok (listed p))
      (page-same (λ r. r.organization_id == auth.organization_id) w.disk.webhook_subscriptions
        w'.disk.webhook_subscriptions same.same_webhooks
        (env.order_asc
          (limited (normalize_pagination limit offset).0 (normalize_pagination limit offset).1)
          WebhookSubscriptionModel (λ r. r.created_at))
        (λ h. serialize_webhook h false) _ _)
read-isolated env auth (rows events limit offset) w w' same =
    ap (λ (p : List Json × ℕ). ok (listed p))
      (page-same (λ r. r.tenant_id == auth.organization_id) w.disk.events w'.disk.events
        same.same_events
        (env.order_desc
          (limited (normalize_pagination limit offset).0 (normalize_pagination limit offset).1)
          EventModel (λ r. r.occurred_at))
        serialize_event _ _)
read-isolated env auth (agent id) w w' same =
    let moved =
      find-same (λ r. r.organization_id == auth.organization_id) w.disk.agents w'.disk.agents
        same.same_agents (λ r. r.id == id) in
    elim (Option-cases
      (find (λ r. r.id == id && r.organization_id == auth.organization_id) w.disk.agents)) [
        | inl e ↦ rw (e, sym moved ∙ e) refl
        | inr (r, e) ↦ rw (e, sym moved ∙ e) refl
      ]
read-isolated env auth (call id) w w' same =
    let moved =
      find-same (λ r. r.organization_id == auth.organization_id) w.disk.calls w'.disk.calls
        same.same_calls (λ r. r.id == id) in
    elim (Option-cases
      (find (λ r. r.id == id && r.organization_id == auth.organization_id) w.disk.calls)) [
        | inl e ↦ rw (e, sym moved ∙ e) refl
        | inr (r, e) ↦ rw (e, sym moved ∙ e) refl
      ]
read-isolated env auth (booking id) w w' same =
    let moved =
      find-same (λ r. r.organization_id == auth.organization_id) w.disk.bookings w'.disk.bookings
        same.same_bookings (λ r. r.id == id) in
    elim (Option-cases
      (find (λ r. r.id == id && r.organization_id == auth.organization_id) w.disk.bookings)) [
        | inl e ↦ rw (e, sym moved ∙ e) refl
        | inr (r, e) ↦ rw (e, sym moved ∙ e) refl
      ]
