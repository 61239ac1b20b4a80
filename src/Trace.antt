-- ===== src/Trace.antt =====
-- crates/rsproxy-trace: the trace collector. Its data model, its memory accounting and its parts.
pub mod Model
pub mod Size
pub mod Event
pub mod Memory
pub mod Pending
pub mod Config
pub mod Counters
pub mod Worker
pub mod Store
mod Tests
