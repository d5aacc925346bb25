-- ===== src/Tracer/Tracking.antt =====
-- crates/hip-buffer-tracer/src/lib.rs: what the wrappers keep of the tracer's state.
use hrx_system_rs.Base.{
  ℕ, zero, suc, ◌+◌, ◌^◌, ◌≤◌, ◌<◌, ◌≡◌, refl, Bool, true, false, Option, List, [], ◌∷◌, length, ℤ,
  pos, negsuc, arith,
}
use hrx_system_rs.Ffi.{Env}
use hrx_system_rs.Ffi.Ensures.{Ensures}
use hrx_system_rs.Tracer.{
  BufferType, TrackedBuffer, Label, Launch, hip_malloc, hip_host_malloc, hip_device_synchronize,
  State, TracerCall, buffer_table_add, buffer_table_remove, kernel_table_get_name,
}
use hrx_system_rs.Tracer.Decisions.{should_trace_kernel}
use hrx_system_rs.Tracer.Text.{Str}
use hrx_system_rs.Tracer.Wrappers.{
  wrap_hip_malloc, wrap_hip_free, wrap_hip_host_malloc, wrap_hip_host_free, wrap_launch,
  wrap_hip_register_function, count_kernel, dump_if,
}
use hrx_system_rs.Hip.{HipFunction, HipCall, function_of}
use hrx_system_rs.Tracer.Forwarding.{wrap_forward, wrap_hip_register_fat_binary, wrap_notice}
use hrx_system_rs.Tracer.DumpSafety.{should_full_dump_kernel-same, dump_all_buffers_ex-same}
use hrx_system_rs.Tracer.Tables.{
  used, IdsBelow, IdsDistinct, AllLive, Registered, fill_slot-Filled, fill_slot-KeepsTable,
  clear_slot-Cleared, clear_slot-StillTable, AllFit, fill_slot-KeepsFit, clear_slot-StillFit,
  kernel_table_add-Registered,
}

-- A positive limit is an `i32`, and no more kernels than it have been traced.
abbrev pub WithinLimit : ℤ → ℕ → Type 0
WithinLimit (pos zero) k = Unit {0}
WithinLimit (pos (suc l)) k = (suc l < 2 ^ 31) × (k ≤ suc l)
WithinLimit (negsuc l) k = Unit {0}

pub record IsTracked (st : State) : Type 0 where
  pub counted : st.buffers.count ≡ used st.buffers.buffers
  pub slots : length st.buffers.buffers ≤ 65536
  pub below : IdsBelow st.buffers.next_alloc_id st.buffers.buffers
  pub distinct : IdsDistinct st.buffers.buffers
  pub live : AllLive st.buffers.buffers
  pub registered : Registered st.kernels
  pub limited : WithinLimit st.kernel_count_limit st.kernel_count

pub used-bounded : (bs : List TrackedBuffer) → used bs ≤ length bs
used-bounded [] = omega arith
used-bounded (b ∷ bs) = ground (arith, used-bounded bs)

-- Tracked, with sizes below 2^63, and the next id is at most n.
abbrev pub Within : ℕ → State → Type 0
Within n st = IsTracked st × AllFit st.buffers.buffers × (st.buffers.next_alloc_id ≤ n)

module _ (e : Env TracerCall) where
  buffer_table_add-Within :
      (ptr size : ℕ) (btype : BufferType) (n : ℕ) (st : State) (t : List TracerCall)
      → Within n st
      → n + 1 < 2 ^ 64
      → size < 2 ^ 63
      → Ensures (λ _ st' _. Within (n + 1) st') (buffer_table_add ptr size btype e st t)
  unfolding buffer_table_add
  buffer_table_add-Within ptr size btype n st t w room fits =
      let new : TrackedBuffer = record {
        ptr = ptr;
        size = size;
        btype = btype;
        in_use = true;
        alloc_id = st.buffers.next_alloc_id;
      } in
      ground (
        arith,
        used-bounded st.buffers.buffers,
        fill_slot-Filled new refl st.buffers.buffers,
        fill_slot-KeepsTable new refl st.buffers.buffers,
        fill_slot-KeepsFit new refl st.buffers.buffers,
      )

  buffer_table_remove-Within :
      (ptr n : ℕ) (st : State) (t : List TracerCall)
      → Within n st
      → Ensures (λ _ st' _. Within n st') (buffer_table_remove ptr e st t)
  unfolding buffer_table_remove
  buffer_table_remove-Within ptr n st t w = ground (
    arith,
    used-bounded st.buffers.buffers,
    clear_slot-Cleared ptr st.buffers.buffers,
    clear_slot-StillFit ptr st.buffers.buffers,
    clear_slot-StillTable ptr st.buffers.next_alloc_id st.buffers.buffers,
  )

  module _ (real : HipFunction → Bool) (filled : (f : HipFunction) → real f ≡ true) where
    pub wrap_hip_malloc-Within :
        (out size n : ℕ) (st : State) (t : List TracerCall)
        → Within n st
        → n + 1 < 2 ^ 64
        → size < 2 ^ 63
        → Ensures (λ _ st' _. Within (n + 1) st') (wrap_hip_malloc real out size e st t)
    unfolding wrap_hip_malloc
    wrap_hip_malloc-Within out size n st t w room fits =
        let u = hip_malloc out size ∷ t in
        ground (
          arith,
          filled HipFunction.hip_malloc,
          buffer_table_add-Within (e.reply u).ptr size BufferType.device n st u w room fits,
        )

    pub wrap_hip_host_malloc-Within :
        (out size n : ℕ) (st : State) (t : List TracerCall)
        → Within n st
        → n + 1 < 2 ^ 64
        → size < 2 ^ 63
        → Ensures (λ _ st' _. Within (n + 1) st') (wrap_hip_host_malloc real out size e st t)
    unfolding wrap_hip_host_malloc
    wrap_hip_host_malloc-Within out size n st t w room fits =
        let u = hip_host_malloc out size ∷ t in
        ground (
          arith,
          filled HipFunction.hip_host_malloc,
          buffer_table_add-Within (e.reply u).ptr size BufferType.host n st u w room fits,
        )

    pub wrap_hip_free-Within :
        (ptr n : ℕ) (st : State) (t : List TracerCall)
        → Within n st
        → Ensures (λ _ st' _. Within n st') (wrap_hip_free real ptr e st t)
    unfolding wrap_hip_free
    wrap_hip_free-Within ptr n st t w =
        ground (arith, filled HipFunction.hip_free, buffer_table_remove-Within ptr n st t w)

    pub wrap_hip_host_free-Within :
        (ptr n : ℕ) (st : State) (t : List TracerCall)
        → Within n st
        → Ensures (λ _ st' _. Within n st') (wrap_hip_host_free real ptr e st t)
    unfolding wrap_hip_host_free
    wrap_hip_host_free-Within ptr n st t w =
        ground (arith, filled HipFunction.hip_host_free, buffer_table_remove-Within ptr n st t w)

    pub wrap_hip_register_function-Within :
        (f n : ℕ) (name : Option Str) (st : State) (t : List TracerCall)
        → Within n st
        → Ensures (λ _ st' _. Within n st') (wrap_hip_register_function real f name e st t)
    unfolding wrap_hip_register_function
    wrap_hip_register_function-Within f n name st t w = ground (
      arith,
      filled HipFunction.hip_register_function,
      kernel_table_add-Registered f name st.kernels,
    )

    pub wrap_forward-Within :
        (c : HipCall) (n : ℕ) (st : State) (t : List TracerCall)
        → Within n st
        → Ensures (λ _ st' _. Within n st') (wrap_forward real c e st t)
    unfolding wrap_forward
    wrap_forward-Within c n st t w = ground (arith, filled (function_of c))

    pub wrap_notice-Within :
        (c : HipCall) (n : ℕ) (st : State) (t : List TracerCall)
        → Within n st
        → Ensures (λ _ st' _. Within n st') (wrap_notice real c e st t)
    unfolding wrap_notice
    wrap_notice-Within c n st t w = ground (arith, filled (function_of c))

    pub wrap_hip_register_fat_binary-Within :
        (data_ n : ℕ) (st : State) (t : List TracerCall)
        → Within n st
        → Ensures (λ _ st' _. Within n st') (wrap_hip_register_fat_binary real data_ e st t)
    unfolding wrap_hip_register_fat_binary
    wrap_hip_register_fat_binary-Within data_ n st t w =
        ground (arith, filled HipFunction.hip_register_fat_binary)

    count_kernel-Within :
        (name : Option Str) (n : ℕ) (st : State) (t : List TracerCall)
        → Within n st
        → Ensures (λ _ st' _. Within n st') (count_kernel (should_trace_kernel st name) e st t)
    unfolding should_trace_kernel
    count_kernel-Within name n st t w = ground arith

    dump_if-same :
        (memory : List TracerCall → ℕ → ℕ) (b : Bool) (label : Label) (force : Bool) (st : State)
        (t : List TracerCall)
        → AllFit st.buffers.buffers
        → Ensures (λ _ st' _. st' ≡ st) (dump_if real memory b label force e st t)
    dump_if-same memory false label force st t fits = refl
    dump_if-same memory true label force st t fits = ground (
      arith,
      filled HipFunction.hip_device_synchronize,
      dump_all_buffers_ex-same e real (filled HipFunction.hip_memcpy) memory label force st
          (hip_device_synchronize ∷ t) fits,
    )

    pub wrap_launch-Within :
        (memory : List TracerCall → ℕ → ℕ) (l : Launch) (f n : ℕ) (st : State) (t : List TracerCall)
        → Within n st
        → Ensures (λ _ st' _. Within n st') (wrap_launch real memory l f e st t)
    unfolding wrap_launch
    wrap_launch-Within memory l f n st t w = grind (
      arith,
      filled,
      should_full_dump_kernel-same,
      dump_if-same,
      count_kernel-Within (kernel_table_get_name f st.kernels) n st,
    )
