-- ===== src/Tools.antt =====
-- internal/tools: which tools may run, and the HTTP handler that runs them.
pub mod Policy
pub mod Handler
