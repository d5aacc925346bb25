-- ===== src/Hip/Logging/Messages.antt =====
-- crates/hip-logging/src/lib.rs: what the wrappers print of a call, after its result is known or before
-- it is made.
use hrx_system_rs.Base.{ℕ, Option, none, some, [], ◌∷◌, ◌++◌, if◌then◌else◌, String}
use hrx_system_rs.Hal.{is_null}
use hrx_system_rs.Tracer.Text.{Str, decimal, hex, p}
use hrx_system_rs.Hip.{
  Dim3, HipCall, memcpy_kind_name, hip_init, hip_driver_get_version, hip_runtime_get_version,
  hip_get_device, hip_get_device_count, hip_set_device, hip_device_synchronize,
  hip_device_get_attribute, hip_device_get_name, hip_malloc, hip_free, hip_host_malloc,
  hip_host_free, hip_mem_get_info, hip_memcpy, hip_memcpy_async, hip_memset, hip_memset_async,
  hip_stream_create, hip_stream_create_with_flags, hip_stream_destroy, hip_stream_synchronize,
  hip_stream_query, hip_stream_wait_event, hip_event_create, hip_event_create_with_flags,
  hip_event_destroy, hip_event_record, hip_event_synchronize, hip_event_query,
  hip_event_elapsed_time, hip_module_launch_kernel, hip_launch_kernel, hip_ext_module_launch_kernel,
}
use hrx_system_rs.Hip.Logging.Text.{codes, concat, signed, hex_padded, cstr, device_attribute_name}

-- What can be read behind the caller's pointers once the call is made: an `int`, a word, a text, and
-- the text of a `float` with six digits after the point.
pub record Memory : Type 0 where
  pub int : ℕ → ℕ
  pub word : ℕ → ℕ
  pub text : ℕ → Str
  pub millis : ℕ → Str

module _ (m : Memory) where
  -- `-1` for NULL.
  abbrev int_or_minus_one : ℕ → Str
  int_or_minus_one v = if is_null v then codes "-1" else signed (m.int v)

  abbrev word_or_zero : ℕ → ℕ
  word_or_zero v = if is_null v then 0 else m.word v

  abbrev ret : Str → ℕ → Str
  ret s err = concat (s ∷ codes ", ret=" ∷ signed err ∷ [])

  abbrev result : Str → ℕ → Str
  result s err = concat (s ∷ codes ") -> " ∷ signed err ∷ [])

  abbrev dims : Dim3 → Str
  dims d =
      concat (
        codes "("
        ∷ decimal d.x
        ∷ codes ","
        ∷ decimal d.y
        ∷ codes ","
        ∷ decimal d.z
        ∷ codes ")"
        ∷ [])

  abbrev copy : String → ℕ → ℕ → ℕ → ℕ → Str
  copy name dst src n kind = concat (
      codes name
      ∷ codes "(dst="
      ∷ p dst
      ∷ codes ", src="
      ∷ p src
      ∷ codes ", size="
      ∷ decimal n
      ∷ codes ", kind="
      ∷ codes (memcpy_kind_name kind)
      ∷ [])

  abbrev fill : String → ℕ → ℕ → ℕ → Str
  fill name dst value n = concat (
      codes name
      ∷ codes "(dst="
      ∷ p dst
      ∷ codes ", value=0x"
      ∷ hex_padded value
      ∷ codes ", size="
      ∷ decimal n
      ∷ [])

  abbrev launch : String → ℕ → Dim3 → Dim3 → ℕ → ℕ → Str
  launch name f grid block shared stream = concat (
      codes name
      ∷ codes "(func="
      ∷ p f
      ∷ codes ", grid="
      ∷ dims grid
      ∷ codes ", block="
      ∷ dims block
      ∷ codes ", shared="
      ∷ decimal shared
      ∷ codes ", stream="
      ∷ p stream
      ∷ [])

  abbrev one : String → Str → Str
  one name arg = codes name ++ arg

  -- The line that a wrapper prints at level 2 when the real function has answered the bits `err`; none
  -- for the wrappers that print otherwise and for the functions that are not wrapped.
  unfoldable pub message : HipCall → ℕ → Option Str
  message (hip_init flags) err = some (result (one "hipInit(flags=0x" (hex flags)) err)
  message (hip_driver_get_version v) err =
      some (ret (one "hipDriverGetVersion() -> version=" (int_or_minus_one v)) err)
  message (hip_runtime_get_version v) err =
      some (ret (one "hipRuntimeGetVersion() -> version=" (int_or_minus_one v)) err)
  message (hip_get_device id) err =
      some (ret (one "hipGetDevice() -> device=" (int_or_minus_one id)) err)
  message (hip_get_device_count count) err =
      some (ret (one "hipGetDeviceCount() -> count=" (int_or_minus_one count)) err)
  message (hip_set_device id) err = some (result (one "hipSetDevice(" (signed id)) err)
  message hip_device_synchronize err = some (result (codes "hipDeviceSynchronize(") err)
  message (hip_device_get_attribute value attr id) err = some (
      ret
        (concat (
          codes "hipDeviceGetAttribute(attr="
          ∷ device_attribute_name attr
          ∷ codes "("
          ∷ decimal attr
          ∷ codes "), device="
          ∷ signed id
          ∷ codes ") -> value="
          ∷ int_or_minus_one value
          ∷ []))
        err)
  message (hip_device_get_name name len id) err = some (
      ret
        (concat (
          codes "hipDeviceGetName(device="
          ∷ signed id
          ∷ codes ") -> name="
          ∷ cstr name (m.text name)
          ∷ []))
        err)
  message (hip_mem_get_info free_ total) err = some (
      ret
        (concat (
          codes "hipMemGetInfo() -> free="
          ∷ decimal (word_or_zero free_)
          ∷ codes ", total="
          ∷ decimal (word_or_zero total)
          ∷ []))
        err)
  message (hip_malloc ptr size) err = some (
      ret
        (concat
          (codes "hipMalloc(size=" ∷ decimal size ∷ codes ") -> ptr=" ∷ p (word_or_zero ptr) ∷ []))
        err)
  message (hip_free ptr) err = some (result (one "hipFree(" (p ptr)) err)
  message (hip_host_malloc ptr size flags) err = some (
      ret
        (concat (
          codes "hipHostMalloc(size="
          ∷ decimal size
          ∷ codes ", flags=0x"
          ∷ hex flags
          ∷ codes ") -> ptr="
          ∷ p (word_or_zero ptr)
          ∷ []))
        err)
  message (hip_host_free ptr) err = some (result (one "hipHostFree(" (p ptr)) err)
  message (hip_memcpy dst src n kind) err = some (result (copy "hipMemcpy" dst src n kind) err)
  message (hip_memcpy_async dst src n kind stream) err = some (
      result (concat (copy "hipMemcpyAsync" dst src n kind ∷ codes ", stream=" ∷ p stream ∷ []))
        err)
  message (hip_memset dst value n) err = some (result (fill "hipMemset" dst value n) err)
  message (hip_memset_async dst value n stream) err =
      some (
        result (concat (fill "hipMemsetAsync" dst value n ∷ codes ", stream=" ∷ p stream ∷ [])) err)
  message (hip_stream_create stream) err =
      some (ret (one "hipStreamCreate() -> stream=" (p (word_or_zero stream))) err)
  message (hip_stream_create_with_flags stream flags) err = some (
      ret
        (concat (
          codes "hipStreamCreateWithFlags(flags=0x"
          ∷ hex flags
          ∷ codes ") -> stream="
          ∷ p (word_or_zero stream)
          ∷ []))
        err)
  message (hip_stream_destroy stream) err =
      some (result (one "hipStreamDestroy(stream=" (p stream)) err)
  message (hip_stream_synchronize stream) err =
      some (result (one "hipStreamSynchronize(stream=" (p stream)) err)
  message (hip_stream_query stream) err =
      some (result (one "hipStreamQuery(stream=" (p stream)) err)
  message (hip_stream_wait_event stream event flags) err = some (
      result
        (concat (
          codes "hipStreamWaitEvent(stream="
          ∷ p stream
          ∷ codes ", event="
          ∷ p event
          ∷ codes ", flags=0x"
          ∷ hex flags
          ∷ []))
        err)
  message (hip_event_create event) err =
      some (ret (one "hipEventCreate() -> event=" (p (word_or_zero event))) err)
  message (hip_event_create_with_flags event flags) err = some (
      ret
        (concat (
          codes "hipEventCreateWithFlags(flags=0x"
          ∷ hex flags
          ∷ codes ") -> event="
          ∷ p (word_or_zero event)
          ∷ []))
        err)
  message (hip_event_destroy event) err = some (result (one "hipEventDestroy(event=" (p event)) err)
  message (hip_event_record event stream) err = some (
      result (concat (codes "hipEventRecord(event=" ∷ p event ∷ codes ", stream=" ∷ p stream ∷ []))
        err)
  message (hip_event_synchronize event) err =
      some (result (one "hipEventSynchronize(event=" (p event)) err)
  message (hip_event_query event) err = some (result (one "hipEventQuery(event=" (p event)) err)
  message (hip_event_elapsed_time ms start stop) err = some (
      ret
        (concat (
          codes "hipEventElapsedTime(start="
          ∷ p start
          ∷ codes ", stop="
          ∷ p stop
          ∷ codes ") -> ms="
          ∷ (if is_null ms then codes "0.000000" else m.millis ms)
          ∷ []))
        err)
  message (hip_module_launch_kernel f grid block shared stream params extra) err = some (
      result
        (concat (
          launch "hipModuleLaunchKernel" f grid block shared stream
          ∷ codes ", extra="
          ∷ p extra
          ∷ []))
        err)
  message (hip_ext_module_launch_kernel f grid block shared stream params extra start stop flags)
        err =
      some (
        result
          (concat (
            launch "hipExtModuleLaunchKernel" f grid block shared stream
            ∷ codes ", flags=0x"
            ∷ hex flags
            ∷ []))
          err)
  message (hip_launch_kernel func grid block args shared stream) err =
      some (result (launch "hipLaunchKernel" func grid block shared stream) err)
  message c err = none
