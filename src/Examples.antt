-- ===== src/Examples.antt =====
-- The theorems at concrete inputs.
mod Data
mod Sessions
mod Staging
mod Core
mod Supervision
mod Runtime
mod Requests
mod Startup
