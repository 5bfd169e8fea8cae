-- ===== src/Cli.antt =====
-- internal/cli: the report that `airlock status` prints.
pub mod Text
pub mod Status
pub mod Commands
