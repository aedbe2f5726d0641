-- ===== src/Availability/Rounds.antt =====
-- The innermost loop of the search for slots (store.py, `_build_agent_availability_payload`) ends.
