-- ===== src/Examples/TracerExamples.antt =====
-- crates/hip-buffer-tracer on concrete sequences of calls.
use hrx_system_rs.Base.{
  ℕ, ◌+◌, ◌≡◌, refl, Bool, true, false, none, some, List, [], ◌∷◌, length, pos, negsuc, arith,
}
use hrx_system_rs.Ffi.{Env, ◌>>◌}
use hrx_system_rs.Ffi.Ensures.{Ensures}
use hrx_system_rs.Tracer.{
  State, BufferType, TracerCall, before, module_launch_kernel, buffer_table_add,
  buffer_table_remove, kernel_table_add, kernel_table_get_name,
}
use hrx_system_rs.Tracer.Text.{atoi, decimal}
use hrx_system_rs.Tracer.Dump.{dump_all_buffers_ex}
use hrx_system_rs.Tracer.Setup.{Variables, hip_interceptor_init}
use hrx_system_rs.Hip.{HipFunction, hip_memset, hip_unregister_fat_binary}
use hrx_system_rs.Tracer.Client.{TracedCall, malloc, free, launch, register, forward, notice, run}
use hrx_system_rs.Tracer.Tracking.{IsTracked}
use hrx_system_rs.Tracer.Runs.{run-init-IsTracked}
use hrx_system_rs.Tracer.DumpSafety.{dump_all_buffers_ex-same}
use hrx_system_rs.Tracer.Untracking.{PtrAbsent, add-remove-PtrAbsent}
use hrx_system_rs.Tracer.Abstract.{
  Added, Removed, buffer_table_add-Added, buffer_table_remove-Removed,
}
use hrx_system_rs.Tracer.Kernels.{get_name-add}
use hrx_system_rs.Tracer.Numbers.{atoi-decimal}

-- HIP succeeds, and an allocation gives a fresh pointer.
abbrev hip : Env TracerCall
hip = record {
  reply = λ t. record { status = none; ptr = length t + 4096; num = 0 };
  malloc_fails = λ t. false;
  dup = λ t s. some s;
  describe = λ t c. none;
}

abbrev all_filled : HipFunction → Bool
all_filled f = true

abbrev bytes : List TracerCall → ℕ → ℕ
bytes t address = 171

-- Level 3, synchronous, a full dump of 8 bytes at most, two kernels at most.
abbrev variables : Variables
variables = record {
  level = some (51 ∷ []);
  sync = some (49 ∷ []);
  dump = some (49 ∷ []);
  dump_max = some (56 ∷ []);
  kernel_filter = none;
  kernel_count = some (50 ∷ []);
  kernel_full_dump = none;
}

abbrev calls : List TracedCall
calls =
    malloc 1 64
    ∷ register 77 (some (107 ∷ 49 ∷ []))
    ∷ launch module_launch_kernel 77
    ∷ launch module_launch_kernel 77
    ∷ launch module_launch_kernel 77
    ∷ forward (hip_memset 4097 0 64)
    ∷ free 4097
    ∷ notice (hip_unregister_fat_binary 5)
    ∷ []

run-init-IsTracked_example :
    Ensures
      (λ _ st _. IsTracked st)
      (run all_filled bytes calls hip (hip_interceptor_init true variables 4) [])
run-init-IsTracked_example =
    run-init-IsTracked hip all_filled bytes true variables 4 calls (λ f. refl) (ground arith)
      (ground arith) (ground arith)

abbrev one_buffer : State
one_buffer = record {
  has_file = true;
  trace_level = pos 3;
  trace_sync = true;
  trace_dump = pos 1;
  trace_dump_max = 8;
  kernel_filter = none;
  kernel_count_limit = pos 2;
  kernel_count = 1;
  kernel_full_dump_list = none;
  buffers = record {
    buffers =
        record { ptr = 4096; size = 64; btype = BufferType.device; in_use = true; alloc_id = 1 }
        ∷ record { ptr = 0; size = 0; btype = BufferType.device; in_use = false; alloc_id = 0 }
        ∷ [];
    count = 1;
    next_alloc_id = 2;
  };
  kernels = [];
}

dump_all_buffers_ex-same_example :
    Ensures
      (λ _ st _. st ≡ one_buffer)
      (dump_all_buffers_ex all_filled bytes (before 1 none) false hip one_buffer [])
dump_all_buffers_ex-same_example =
    dump_all_buffers_ex-same hip all_filled refl bytes (before 1 none) false one_buffer []
      (ground arith)

one_buffer-IsTracked : IsTracked one_buffer
one_buffer-IsTracked = ground arith

add-remove-PtrAbsent_example :
    Ensures
      (λ _ st _. (st.buffers.count ≡ 1) × PtrAbsent 8192 st.buffers.buffers)
      ((buffer_table_add 8192 32 BufferType.host >> buffer_table_remove 8192) hip one_buffer [])
add-remove-PtrAbsent_example =
    add-remove-PtrAbsent hip 8192 32 BufferType.host one_buffer [] one_buffer-IsTracked
      (ground arith)

get_name-add_example :
    kernel_table_get_name 77 (kernel_table_add 77 (some (107 ∷ [])) []) ≡ some (107 ∷ [])
unfolding kernel_table_get_name
get_name-add_example = get_name-add 77 77 (some (107 ∷ [])) [] (ground arith)

atoi-decimal_example : (atoi (decimal 1024) ≡ pos 1024) × (atoi (45 ∷ decimal 1024) ≡ negsuc 1023)
atoi-decimal_example = atoi-decimal 1024 (ground arith)

buffer_table_add-Added_example :
    Ensures
      (λ _ st _. Added one_buffer 8192 32 BufferType.host st)
      (buffer_table_add 8192 32 BufferType.host hip one_buffer [])
buffer_table_add-Added_example = buffer_table_add-Added hip one_buffer [] 8192 32 BufferType.host

buffer_table_remove-Removed_example :
    Ensures (λ _ st _. Removed one_buffer 4096 st) (buffer_table_remove 4096 hip one_buffer [])
buffer_table_remove-Removed_example = buffer_table_remove-Removed hip one_buffer [] 4096
