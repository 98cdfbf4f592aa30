-- ===== src/Torznab.antt =====
-- internal/torznab: the Torznab protocol, its parameters, categories and documents.
pub mod Parameter
pub mod Category
pub mod Title
pub mod Tokens
pub mod Marks
pub mod Query
pub mod Labels
pub mod Feed
pub mod Document
