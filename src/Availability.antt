-- ===== src/Availability.antt =====
-- When an agent can be booked: store.py of apps/api/src/voiceagent_api.
mod Hours
mod Clocks
mod Slots
mod Payload
pub mod Loops
pub mod Offers
pub mod Unseen
pub mod Rounds
pub mod Bounds
pub use Hours.{Range, in_bounds, ends_before}
unfoldable pub use Hours.{business_hour_keys, strip, split_once, int, time_of, parse_business_range}
pub use Clocks.{Zones, IsSteady, KeepsInstants}
unfoldable pub use Clocks.{as_utc, resolve_timezone, as_agent_utc}
pub use Slots.{
  Slot, Search, Found, hours_for, zone, offer, start_of, end_of, is_full, day_at, weekday,
  nothing_found,
}
unfoldable pub use Slots.{
  ranges_overlap, slot_at, conflict_found, visit, walk, walk_range, walk_ranges, walk_keys,
  walk_days, find_slots,
}
pub use Payload.{Availability, Asked, is_active, is_excluded, reference_utc}
unfoldable pub use Payload.{
  effective_minutes, is_near, is_calendar, search_of, near_bookings,
  build_agent_availability_payload, serialize_availability_slot, get_agent_availability,
}
