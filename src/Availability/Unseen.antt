-- ===== src/Availability/Unseen.antt =====
-- Bookings that the search for slots does not see (store.py, `_build_agent_availability_payload`),
-- so that their slot is offered again.
use real_voice_agent_free.Prelude.{◌≡◌, List, All, aware}
use real_voice_agent_free.Models.{BookingModel}
use real_voice_agent_free.Availability.Slots.{Slot}

-- none of the bookings starts at another time than the slot
abbrev pub StartWith : Slot → List BookingModel → Type 0
StartWith slot = All (λ b. b.start_at ≡ aware slot.start_at)
