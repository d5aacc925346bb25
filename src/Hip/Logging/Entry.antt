-- ===== src/Hip/Logging/Entry.antt =====
-- crates/hip-logging/src/lib.rs: the entry points of the interceptor.
use hrx_system_rs.Base.{
  ℕ, Bool, true, false, not, ◌&&◌, Option, none, some, [], ◌∷◌, if◌then◌else◌, ℤ, pos,
}
use hrx_system_rs.Ffi.{pure, ◌>>=◌, ◌>>◌, call, emit, get, modify}
use hrx_system_rs.Hal.{is_null}
use hrx_system_rs.Tracer.Text.{Str, is_empty, atoi}
use hrx_system_rs.Hip.{HipFunction}
use hrx_system_rs.Hip.Process.{
  fopen, fdopen_stderr, fclose, eprint, logging, Slots, Logger, Process, P,
}
use hrx_system_rs.Hip.Logging.{log_msg}
use hrx_system_rs.Hip.Logging.Text.{codes, concat, decimal_int}

abbrev pub set_log : Logger → Process → Process
set_log l s = record s { log = l }

-- The file, and whether it is the logger's own.
abbrev to_stderr : P (ℕ × Bool)
to_stderr = do f ← call fdopen_stderr; pure (f.ptr, false)

-- HIP_LOG_FILE, `none` when it is not set.
abbrev pub open_log : Option Str → P (ℕ × Bool)
open_log none = to_stderr
open_log (some path) = if is_empty path then to_stderr else do
  f ← call (fopen path)
  if is_null f.ptr
      then (do
        emit (
            eprint
              (concat (codes "hip_logging: failed to open log file: " ∷ path ∷ (10 ∷ []) ∷ [])))
        to_stderr)
      else pure (f.ptr, true)

-- HIP_LOG_LEVEL.
abbrev pub log_level : Option Str → ℤ
log_level none = pos 2
log_level (some s) = atoi s

abbrev pub init_line : ℤ → Str
init_line level =
    concat (codes "HIP Logging initialized (level=" ∷ decimal_int level ∷ codes ")" ∷ [])

-- The slots that the interceptor overrides.
abbrev pub is_wrapped : HipFunction → Bool
is_wrapped HipFunction.hip_device_reset = false
is_wrapped HipFunction.hip_module_load = false
is_wrapped HipFunction.hip_module_load_data = false
is_wrapped HipFunction.hip_module_unload = false
is_wrapped HipFunction.hip_module_get_function = false
is_wrapped HipFunction.hip_module_get_global = false
is_wrapped HipFunction.hip_get_error_string = false
is_wrapped HipFunction.hip_get_error_name = false
is_wrapped f = true

abbrev pub wrapper_table : Slots → Slots
wrapper_table real f = if is_wrapped f then some logging else real f

-- The real table, the two variables, and the table that is returned.
unfoldable pub hip_interceptor_init : Slots → Option Str → Option Str → P Slots
unfolding log_msg
hip_interceptor_init real hip_log_file hip_log_level = do
  modify λ s. record s { log_real = some real }
  f ← open_log hip_log_file
  let level = log_level hip_log_level
  modify (set_log (record { file = f.0; level = level; owns_file = f.1 }))
  log_msg 1 (init_line level)
  pure (wrapper_table real)

unfoldable pub hip_interceptor_shutdown : P (Unit {0})
unfolding log_msg
hip_interceptor_shutdown = do
  log_msg 1 (codes "HIP Logging shutting down")
  s ← get
  if s.log.owns_file && not (is_null s.log.file)
      then (do emit (fclose s.log.file); modify λ s. set_log (record s.log { file = 0 }) s)
      else pure tt
