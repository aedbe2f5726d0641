-- ===== src/Bookings.antt =====
-- Bookings: store.py of apps/api/src/voiceagent_api, and its stub of a calendar.
mod Defs
mod Methods
pub mod Free
pub mod Ensure
pub mod Apart
pub mod Booked
pub mod Kept
pub mod Runs
pub use Defs.{BookingCreateRequest, BookingUpdateRequest, CalendarBookingResult, slot_query, offers}
unfoldable pub use Defs.{
  get_booking_or_404, calendar_create, external_id_of, calendar_update, is_conflict, refuse_slot,
  ensure_booking_slot_available,
}
unfoldable pub use Methods.{
  list_bookings, list_bookings_paginated, get_booking, new_booking, as_stored, booking_created,
  booking_updated, book, create_booking, changed_booking, ensure_unless_cancelled, settled_booking,
  rebook, update_booking,
}
