-- ===== src/Tests.antt =====
-- Tests of the model and instances of its theorems at concrete inputs.
mod World
mod Webhooks
mod Idempotency
mod Calls
mod Agents
mod Auth
mod Bookings
mod Runtime
mod Routers
mod Resources
