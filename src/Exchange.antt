-- ===== src/Exchange.antt =====
-- A whole operation: client.c, `client_start_operation`, against server.c, `server_parse_request_data`
-- and `server_task_start`, each side receiving what the other one sends.
pub mod Filling
pub mod Sides
pub mod ServerSide
pub mod ClientSide
pub mod Download
pub mod Upload
pub mod Deletion
