-- ===== src/Jobs.antt =====
-- The jobs of a device and the dispatcher that runs them (vuinputd/src/jobs, vuinputd/src/job_engine).
pub mod Emit
pub mod Remove
pub mod Awaiter
pub mod Engine
pub mod Closure
pub mod Dispatcher
