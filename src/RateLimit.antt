-- ===== src/RateLimit.antt =====
-- pkg/ratelimit: the limits' configuration, the wrapper of x/time/rate's token bucket, and the
-- limiter over three metrics that every broadcast passes.
pub mod Config
pub mod Bounds
pub mod Limiter
pub mod Multi
pub mod Chunks
pub mod Waits
pub mod Live
