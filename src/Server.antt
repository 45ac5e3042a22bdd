-- ===== src/Server.antt =====
-- internal/server/server.go: the displays of the terminals and the sessions that they show.
pub mod Resolution
pub mod Geometry
pub mod State
pub mod Connection
pub mod Displays
pub mod Runs
pub mod System
pub mod Changes
pub mod Generations
pub mod Current
pub mod Pending
pub mod Cancelling
pub mod Known
pub mod Routed
