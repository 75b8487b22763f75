-- ===== src/Export.antt =====
-- backend/app/export: the calendar of a plan.
pub mod Ics
