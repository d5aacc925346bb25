-- ===== src/Tracer/Wrappers.antt =====
-- crates/hip-buffer-tracer/src/lib.rs: the wrappers that use the tables. A HIP function answers an
-- error number, 0 on success, and the pointer that stands behind its out pointer after the call.
use hrx_system_rs.Base.{
  ℕ, ◌+◌, ◌%◌, ◌^◌, Bool, true, false, not, ◌&&◌, Option, List, ◌==◌, if◌then◌else◌,
}
use hrx_system_rs.Ffi.{pure, ◌>>=◌, ◌>>◌, call, emit, get, modify}
use hrx_system_rs.Hal.{is_null}
use hrx_system_rs.Hip.{HipFunction}
use hrx_system_rs.Tracer.{
  BufferType, Label, before, after, Launch, module_launch_kernel, launch_kernel,
  ext_module_launch_kernel, malloc_line, host_malloc_line, free_line, host_free_line, launch_line,
  launch_result, register_line, TracerCall, hip_malloc, hip_host_malloc, hip_free, hip_host_free,
  hip_device_synchronize, hip_launch, hip_register_function, T, on_slot, trace_msg,
  buffer_table_add, buffer_table_remove, kernel_table_get_name, kernel_table_add,
}
use hrx_system_rs.Tracer.Decisions.{should_trace_kernel, should_full_dump_kernel}
use hrx_system_rs.Tracer.Text.{Str}
use hrx_system_rs.Tracer.Dump.{dump_all_buffers_ex}

abbrev add_allocated : ℕ → ℕ → ℕ → ℕ → BufferType → T (Unit {0})
add_allocated err out ptr size btype =
    if (err == 0) && not (is_null out) && not (is_null ptr)
    then buffer_table_add ptr size btype
    else pure tt

abbrev out_value : ℕ → ℕ → ℕ
out_value out ptr = if is_null out then 0 else ptr

abbrev pub count_kernel : Bool → T (Unit {0})
count_kernel false = pure tt
count_kernel true = modify λ st. record st { kernel_count = (st.kernel_count + 1) % 2 ^ 32 }

abbrev launch_function : Launch → HipFunction
launch_function module_launch_kernel = HipFunction.hip_module_launch_kernel
launch_function launch_kernel = HipFunction.hip_launch_kernel
launch_function ext_module_launch_kernel = HipFunction.hip_ext_module_launch_kernel

-- `real`: which slots of the real table are filled.
module _ (real : HipFunction → Bool) where
  unfoldable pub wrap_hip_malloc : ℕ → ℕ → T ℕ
  wrap_hip_malloc out size = do
    r ← on_slot (real HipFunction.hip_malloc) (call (hip_malloc out size))
    add_allocated r.num out r.ptr size BufferType.device
    trace_msg 2 (malloc_line size (out_value out r.ptr) r.num)
    pure r.num

  unfoldable pub wrap_hip_free : ℕ → T ℕ
  wrap_hip_free ptr = do
    buffer_table_remove ptr
    r ← on_slot (real HipFunction.hip_free) (call (hip_free ptr))
    trace_msg 2 (free_line ptr r.num)
    pure r.num

  unfoldable pub wrap_hip_host_malloc : ℕ → ℕ → T ℕ
  wrap_hip_host_malloc out size = do
    r ← on_slot (real HipFunction.hip_host_malloc) (call (hip_host_malloc out size))
    add_allocated r.num out r.ptr size BufferType.host
    trace_msg 2 (host_malloc_line size (out_value out r.ptr) r.num)
    pure r.num

  unfoldable pub wrap_hip_host_free : ℕ → T ℕ
  wrap_hip_host_free ptr = do
    buffer_table_remove ptr
    r ← on_slot (real HipFunction.hip_host_free) (call (hip_host_free ptr))
    trace_msg 2 (host_free_line ptr r.num)
    pure r.num

  module _ (memory : List TracerCall → ℕ → ℕ) where
    abbrev pub dump_if : Bool → Label → Bool → T (Unit {0})
    dump_if false label force = pure tt
    dump_if true label force = do
      on_slot (real HipFunction.hip_device_synchronize) (emit hip_device_synchronize)
      dump_all_buffers_ex real memory label force

    abbrev pub launch_named : Launch → ℕ → Option Str → T ℕ
    launch_named launch f name = do
      st ← get
      let do_trace = should_trace_kernel st name
      do_full ← should_full_dump_kernel name
      dump_if (do_trace && st.trace_sync) (before st.kernel_count name) do_full
      trace_msg 2 (launch_line launch f name)
      r ← on_slot (real (launch_function launch)) (call (hip_launch launch f))
      dump_if (do_trace && st.trace_sync) (after st.kernel_count name r.num) do_full
      count_kernel do_trace
      trace_msg 2 (launch_result r.num)
      pure r.num

    -- The three launch functions, which differ in the arguments that they pass on.
    unfoldable pub wrap_launch : Launch → ℕ → T ℕ
    wrap_launch launch f = do st ← get; launch_named launch f (kernel_table_get_name f st.kernels)

  unfoldable pub wrap_hip_register_function : ℕ → Option Str → T (Unit {0})
  wrap_hip_register_function host_fun name = do
    modify λ st. record st { kernels = kernel_table_add host_fun name st.kernels }
    trace_msg 2 (register_line host_fun name)
    on_slot (real HipFunction.hip_register_function) (emit (hip_register_function host_fun))
