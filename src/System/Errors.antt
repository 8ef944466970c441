-- ===== src/System/Errors.antt =====
-- How the calls of the library that block report that they have failed.
use state_thread.Vp.{Vp}
