-- ===== src/Hip/Logging.antt =====
-- crates/hip-logging/src/lib.rs: the interceptor that logs every call and forwards it. `memory` is what
-- the caller's pointers lead to, a function of the trace.
pub mod Text
pub mod Messages
pub mod Entry
use hrx_system_rs.Base.{
  ℕ, ◌+◌, ◌/◌, ◌^◌, Bool, ◌&&◌, ◌||◌, not, Option, none, some, List, [], ◌∷◌, ◌++◌, ◌==◌,
  if◌then◌else◌, String,
}
use hrx_system_rs.Ffi.{Reply, M, done, pure, panic, ◌>>=◌, ◌>>◌, call, emit, get}
use hrx_system_rs.Hal.{is_null}
use hrx_system_rs.Tracer.{is_above}
use hrx_system_rs.Tracer.Text.{Str, decimal, p}
use hrx_system_rs.Hip.{
  HipFunction, HipCall, function_of, kind_of, Answer, error, pointer, nothing, ResultKind,
  error_kind, pointer_kind, text_kind, no_kind, hip_get_device_properties, hip_register_fat_binary,
  hip_unregister_fat_binary, hip_register_function, hip_register_var, hip_get_last_error,
  hip_peek_at_last_error,
}
use hrx_system_rs.Hip.Process.{
  ProcessCall, invoke, clock_gettime, fwrite, fflush, Target, library, logging, Slots, Process, P,
}
use Text.{codes, concat, signed, six_digits, cstr}
use Messages.{Memory, message}

-- "[seconds.microseconds] message" and a line feed.
abbrev log_line : ℕ → ℕ → Str → Str
log_line tv_sec tv_nsec msg = concat (
    codes "["
    ∷ decimal tv_sec
    ∷ codes "."
    ∷ six_digits (tv_nsec / 1000)
    ∷ codes "] "
    ∷ msg
    ∷ (10 ∷ [])
    ∷ [])

-- The clock answers the seconds and the nanoseconds.
unfoldable pub log_msg : ℕ → Str → P (Unit {0})
log_msg level msg = do
  s ← get
  if is_above level s.log.level || is_null s.log.file then pure tt else do
    ts ← call clock_gettime
    emit (fwrite s.log.file (log_line ts.ptr ts.num msg))
    emit (fflush s.log.file)

-- `real().f.unwrap()`, which panics for a slot that is empty. The real table holds functions of the
-- backend only.
abbrev pub call_target : Option Target → HipCall → P Reply
call_target none c = panic
call_target (some logging) c = panic
call_target (some (library f)) c = call (invoke f c)

abbrev pub real_slot : Option Slots → HipFunction → Option Target
real_slot none f = none
real_slot (some slots) f = slots f

abbrev pub real_call : HipCall → P Reply
real_call c = do s ← get; call_target (real_slot s.log_real (function_of c)) c

abbrev pub answer_of : ResultKind → Reply → Answer
answer_of error_kind r = error r.num
answer_of pointer_kind r = pointer r.ptr
answer_of text_kind r = pointer r.ptr
answer_of no_kind r = nothing

abbrev pub log_message : Option Str → P (Unit {0})
log_message none = pure tt
log_message (some msg) = log_msg 2 msg

abbrev pub name_line : Str → Str
name_line name = codes "  DeviceProps: name=" ++ name

abbrev pub fields_line : Str
fields_line = codes "  DeviceProps: (use hipDeviceGetAttribute logs for individual fields)"

abbrev pub log_device_name : Bool → Str → P (Unit {0})
log_device_name named name =
    if named then (do log_msg 2 (name_line name); log_msg 2 fields_line) else pure tt

abbrev pub device_properties_line : ℕ → ℕ → Str
device_properties_line id ret =
    concat
      (codes "hipGetDeviceProperties(device=" ∷ signed id ∷ codes ") -> ret=" ∷ signed ret ∷ [])

abbrev pub log_device_properties : ℕ → ℕ → ℕ → Memory → P (Unit {0})
log_device_properties prop id ret m = do
  log_msg 2 (device_properties_line id ret)
  log_device_name ((ret == 0) && not (is_null prop)) (cstr prop (m.text prop))

-- The last error is logged at level 1, and its absence at level 3.
abbrev pub log_last_error : String → ℕ → P (Unit {0})
log_last_error name ret =
    if not (ret == 0)
    then log_msg 1 (concat (codes name ∷ codes "() -> " ∷ signed ret ∷ codes " (ERROR)" ∷ []))
    else log_msg 3 (codes name ++ codes "() -> 0")

abbrev pub fat_binary_line : ℕ → ℕ → Str
fat_binary_line data_ handle =
    concat (codes "__hipRegisterFatBinary(data=" ∷ p data_ ∷ codes ") -> handle=" ∷ p handle ∷ [])

module _ (memory : List ProcessCall → Memory) where
  abbrev read_memory : P Memory
  read_memory e s t = done (memory t) s t

  -- A wrapper that prints one line when the real function has answered.
  unfoldable pub wrap_plain : HipCall → P Answer
  unfolding message log_msg
  wrap_plain c = do
    r ← real_call c
    m ← read_memory
    log_message (message m c r.num)
    pure (answer_of (kind_of (function_of c)) r)

  unfoldable pub wrap_get_device_properties : ℕ → ℕ → P Answer
  unfolding log_msg
  wrap_get_device_properties prop id = do
    r ← real_call (hip_get_device_properties prop id)
    m ← read_memory
    log_device_properties prop id r.num m
    pure (error r.num)

  unfoldable pub wrap_last_error : String → HipCall → P Answer
  unfolding log_msg
  wrap_last_error name c = do r ← real_call c; log_last_error name r.num; pure (error r.num)

  unfoldable pub wrap_register_fat_binary : ℕ → P Answer
  unfolding log_msg
  wrap_register_fat_binary data_ = do
    r ← real_call (hip_register_fat_binary data_)
    log_msg 2 (fat_binary_line data_ r.ptr)
    pure (pointer r.ptr)

  -- A wrapper that prints its line before the call.
  unfoldable pub wrap_after : (Memory → Str) → HipCall → P Answer
  unfolding log_msg
  wrap_after line c = do m ← read_memory; log_msg 2 (line m); r ← real_call c; pure nothing

  unfoldable pub wrapper : HipCall → P Answer
  wrapper (hip_get_device_properties prop id) = wrap_get_device_properties prop id
  wrapper hip_get_last_error = wrap_last_error "hipGetLastError" hip_get_last_error
  wrapper hip_peek_at_last_error = wrap_last_error "hipPeekAtLastError" hip_peek_at_last_error
  wrapper (hip_register_fat_binary data_) = wrap_register_fat_binary data_
  wrapper (hip_unregister_fat_binary handle) =
      wrap_after
        (λ m. concat (codes "__hipUnregisterFatBinary(handle=" ∷ p handle ∷ codes ")" ∷ []))
        (hip_unregister_fat_binary handle)
  wrapper (hip_register_function handle host device name rest) =
      wrap_after
        (λ m. concat (
          codes "__hipRegisterFunction(handle="
          ∷ p handle
          ∷ codes ", host="
          ∷ p host
          ∷ codes ", device="
          ∷ cstr name (m.text name)
          ∷ codes ")"
          ∷ []))
        (hip_register_function handle host device name rest)
  wrapper (hip_register_var handle host device name ext size constant global) =
      wrap_after
        (λ m. concat (
          codes "__hipRegisterVar(handle="
          ∷ p handle
          ∷ codes ", name="
          ∷ cstr name (m.text name)
          ∷ codes ", size="
          ∷ decimal size
          ∷ codes ")"
          ∷ []))
        (hip_register_var handle host device name ext size constant global)
  wrapper c = wrap_plain c
