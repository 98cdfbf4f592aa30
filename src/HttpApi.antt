-- ===== src/HttpApi.antt =====
-- internal/httpapi: the HTTP boundary.
pub mod Construct
pub mod Values
pub mod Numbers
pub mod Query
pub mod Server
pub mod Reply
