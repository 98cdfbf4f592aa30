-- ===== src/Anilibria.antt =====
-- internal/anilibria: the client of the AniLiberty API.
pub mod Construct
pub mod Retry
pub mod Limiter
pub mod GetJson
pub mod Models
pub mod Json
pub mod Operations
