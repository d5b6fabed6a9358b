-- ===== src/Scheduler.antt =====
-- apps/scheduler: what the platform does on its own, by the clock.
pub mod Sweep
pub mod Settlements
pub mod Amc
pub mod Health
