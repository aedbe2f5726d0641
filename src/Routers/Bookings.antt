-- ===== src/Routers/Bookings.antt =====
-- The routes of apps/api/src/voiceagent_api/routers/bookings.py.
use real_voice_agent_free.Prelude.{ℕ, ℤ, String, Option, List}
use real_voice_agent_free.Json.{Json}
use real_voice_agent_free.Env.{Env}
use real_voice_agent_free.Session.{M}
use real_voice_agent_free.Auth.{AuthContext}
use real_voice_agent_free.Routers.Http.{Web, Incoming, once_traced}
use real_voice_agent_free.Routers.Pages.{normalize_pagination}
use real_voice_agent_free.Availability.{Zones}
use real_voice_agent_free.Bookings.{
  BookingCreateRequest, BookingUpdateRequest, list_bookings_paginated, create_booking, get_booking,
  update_booking,
}

unfoldable pub list_bookings_route : Env → AuthContext → Option ℤ → ℤ → M (List Json × ℕ)
list_bookings_route env auth limit offset =
    let effective = normalize_pagination limit offset in
    list_bookings_paginated env auth.organization_id effective.0 effective.1

unfoldable pub create_booking_route : Env → Zones → Web → Incoming → BookingCreateRequest → M Json
create_booking_route env z web i payload =
    once_traced env web i (web.model_dump BookingCreateRequest payload)
      λ trace_id. create_booking env z payload i.auth.organization_id trace_id i.now

unfoldable pub get_booking_route : AuthContext → String → M Json
get_booking_route auth booking_id = get_booking booking_id auth.organization_id

unfoldable pub update_booking_route :
    Env → Zones → Web → Incoming → String → BookingUpdateRequest → M Json
update_booking_route env z web i booking_id payload =
    once_traced env web i (web.model_dump BookingUpdateRequest payload)
      λ trace_id. update_booking env z booking_id payload i.auth.organization_id trace_id i.now
