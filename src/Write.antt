-- ===== src/Write.antt =====
-- The write path: backend/app/write, one module for each part.
pub mod Canonical
pub mod Timetable
pub mod Preview
pub mod Payload
pub mod Jobs
pub mod Transport
pub mod Reconcile
pub mod Response
pub mod Form
pub mod Engine
pub mod Queue
pub mod Submit
pub mod Lookup
pub mod Request
pub mod Resolve
pub mod Api
pub mod JobView
pub mod Lifecycle
