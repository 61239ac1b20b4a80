-- ===== src/Pool.antt =====
-- crates/rsproxy-net/src: the pool of upstream HTTP/2 connections with its limit on active streams.
pub mod Activity
pub mod Admission
pub mod Http2
pub mod Steps
mod Tests
