-- ===== src/Indexer.antt =====
-- internal/indexer: the index of the Markdown files, its search, and their HTTP handlers.
pub mod Tokens
pub mod Scan
pub mod Ticks
pub mod Search
pub mod Handlers
