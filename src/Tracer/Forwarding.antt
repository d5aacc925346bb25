-- ===== src/Tracer/Forwarding.antt =====
-- crates/hip-buffer-tracer/src/lib.rs: the wrappers that call the real function and trace the call, and
-- the shutdown.
use hrx_system_rs.Base.{ℕ, Bool, ◌&&◌, false, if◌then◌else◌}
use hrx_system_rs.Ffi.{pure, ◌>>=◌, ◌>>◌, call, emit, get, modify}
use hrx_system_rs.Hip.{HipFunction, HipCall, function_of, hip_register_fat_binary}
use hrx_system_rs.Tracer.{
  call_line, notice_line, shutting_down, kernels_traced, buffers_tracked, hip_forward,
  close_trace_file, T, on_slot, trace_msg,
}

-- `real`: which slots of the real table are filled.
module _ (real : HipFunction → Bool) where
  -- The copies, the fills, and what they do with devices, streams and events.
  unfoldable pub wrap_forward : HipCall → T ℕ
  wrap_forward c = do
    r ← on_slot (real (function_of c)) (call (hip_forward c))
    trace_msg 2 (call_line c r.num r.ptr)
    pure r.num

  unfoldable pub wrap_hip_register_fat_binary : ℕ → T ℕ
  wrap_hip_register_fat_binary data_ = do
    r ←
        on_slot (real HipFunction.hip_register_fat_binary)
          (call (hip_forward (hip_register_fat_binary data_)))
    trace_msg 2 (call_line (hip_register_fat_binary data_) r.num r.ptr)
    pure r.ptr

  -- The call is traced before it is made: `__hipUnregisterFatBinary` and `__hipRegisterVar`.
  unfoldable pub wrap_notice : HipCall → T (Unit {0})
  wrap_notice c = do
    trace_msg 2 (notice_line c)
    on_slot (real (function_of c)) (emit (hip_forward c))

-- `owns_file`: the initialisation opened the trace file itself.
unfoldable pub hip_interceptor_shutdown : Bool → T (Unit {0})
hip_interceptor_shutdown owns_file = do
  st ← get
  trace_msg 1 shutting_down
  trace_msg 1 (kernels_traced st.kernel_count)
  trace_msg 1 (buffers_tracked st.buffers.count)
  if owns_file && st.has_file
      then (do emit close_trace_file; modify λ st. record st { has_file = false })
      else pure tt
