-- ===== src/Process/Run/Overflow.antt =====
-- src/process/mod.rs, `run_task`: a deadline that the system cannot represent.
use command_api.Process.Run.{Run}
