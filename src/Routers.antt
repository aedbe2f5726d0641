-- ===== src/Routers.antt =====
-- The HTTP routes: apps/api/src/voiceagent_api/routers.
pub mod Http
pub mod Pages
pub mod Agents
pub mod Calls
pub mod Bookings
pub mod Webhooks
pub mod Organizations
pub mod Resources
pub mod Accounts
pub mod Keys
pub mod Fresh
pub mod FreshResources
pub mod Endpoints
pub mod Once
pub mod Repeat
pub mod Paging
pub mod Isolation
