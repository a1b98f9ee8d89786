-- ===== src/Pools/Busy.antt =====
-- src/db/connection.ts: the idle sweep and the statements that run.
use mcp_server_db2i.Prelude.Table.{Table}
