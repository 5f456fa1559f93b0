-- ===== src/Server.antt =====
-- internal/pkg/reproxy/server.go: start-up, the early failure of a build, and how one action runs.
pub mod Startup
pub mod Started
pub mod FailEarly
pub mod Failing
pub mod Environment
pub mod Action
pub mod Records
pub mod Requests
pub mod Run
pub mod Race
