-- ===== src/Hip/Noop.antt =====
-- crates/hip-noop/src/lib.rs: the interceptor that wraps nothing.
use hrx_system_rs.Base.{Option, none}
use hrx_system_rs.Ffi.{pure}
use hrx_system_rs.Hip.Process.{Slots, P}

-- NULL: the real functions are used directly.
unfoldable pub hip_interceptor_init : Slots → P (Option Slots)
hip_interceptor_init real_functions = pure none

unfoldable pub hip_interceptor_shutdown : P (Unit {0})
hip_interceptor_shutdown = pure tt
