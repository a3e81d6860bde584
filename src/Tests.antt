-- ===== src/Tests.antt =====
-- Concrete inputs.
mod Loading
mod Files
mod Redis
mod Fixtures
mod Requests
mod Eviction
mod Storage
mod Parts
