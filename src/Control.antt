-- ===== src/Control.antt =====
-- The control interface, by which an administrator asks the server for its connectors (src/control).
pub mod Connection
pub mod Queries
