-- ===== src/App.antt =====
-- configs/responder/app.py: the handlers of the responder over its two sets of tables.
pub mod World
pub mod Jobs
pub mod Paths
pub mod Http
pub mod Alerts
pub mod Taps
pub mod Sweeps
pub mod Names
pub mod Steps
pub mod Safety
pub mod Refines
pub mod Handlers
pub mod Requests
pub mod History
pub mod Stranded
pub mod Wire
pub mod Session
pub mod Crashed
