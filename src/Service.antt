-- ===== src/Service.antt =====
-- internal/service: the orchestration of a search.
pub mod Construct
pub mod Request
pub mod Paging
pub mod Processing
pub mod Loading
pub mod Execution
