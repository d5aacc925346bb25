-- ===== src/Examples/PoolExamples.antt =====
-- crates/hrx-libhrx/src/pool.rs and `hrx_buffer_allocate` on concrete calls.
use hrx_system_rs.Base.{ℕ, ◌≡◌, refl, some, [], arith, false}
use hrx_system_rs.Ffi.{◌>>=◌}
use hrx_system_rs.Ffi.Ensures.{Ensures}
use hrx_system_rs.Ffi.Samples.{ok_env, fails_at}
use hrx_system_rs.Hal.{HalBufferParams}
use hrx_system_rs.Ffi.Kinds.{held}
use hrx_system_rs.Hal.Samples.{sample_objects}
use hrx_system_rs.Stream.{HrxStreamS}
use hrx_system_rs.Pool.{HrxExactPool, hrx_iree_exact_pool_create}
use hrx_system_rs.Pool.Lifetime.{
  memory, allocator_refs, notifications, destroy_if_made, create-destroy-held,
}
use hrx_system_rs.Pool.Reservations.{
  buffer_refs, allocate_once, with_buffer, AllocatesBuffers, allocate_once-held,
}
use hrx_system_rs.Pool.Allocate.{hrx_buffer_allocate}
use hrx_system_rs.Pool.Outcome.{Allocated, GivesBuffers, hrx_buffer_allocate-Allocated}
use hrx_system_rs.Pool.Behind.{BehindAfterWait, hrx_buffer_allocate-BehindAfterWait}

abbrev params : HalBufferParams
params = record { usage = 3; access = 7; type_ = 48; queue_affinity = 0; min_alignment = 0 }

abbrev no_state : Unit {0}
no_state = tt

-- The notification cannot be created.
create-destroy-held_example :
    Ensures
      (λ _ _ t.
        (held memory (fails_at 4) t ≡ some [])
        × (held allocator_refs (fails_at 4) t ≡ some [])
        × (held notifications (fails_at 4) t ≡ some []))
      ((hrx_iree_exact_pool_create 3 8 params >>= destroy_if_made) (fails_at 4) no_state [])
create-destroy-held_example =
    create-destroy-held (fails_at 4) no_state [] 3 8 params [] [] [] refl refl refl

ok_env-AllocatesBuffers : AllocatesBuffers ok_env
ok_env-AllocatesBuffers a p n t ok = ground arith

abbrev pool : HrxExactPool
pool = record { address = 3; allocator = 8; params = params; notification = 4 }

allocate_once-held_example :
    Ensures
      (λ made _ t. held buffer_refs ok_env t ≡ some (with_buffer made []))
      (allocate_once pool params 0 64 ok_env no_state [])
allocate_once-held_example =
    allocate_once-held ok_env no_state [] pool params 0 64 [] ok_env-AllocatesBuffers refl

abbrev idle : HrxStreamS
idle = record {
  timepoint = 4;
  pending_cb = 0;
  has_pending_work = false;
  flags = 0;
  semaphore = 8;
  device = 9;
}

ok_env-GivesBuffers : GivesBuffers ok_env
ok_env-GivesBuffers d a ws ss p q n t ok = ground arith

fails_at-GivesBuffers : (n : ℕ) → GivesBuffers (fails_at n)
fails_at-GivesBuffers k d a ws ss p q n t ok = ground arith

hrx_buffer_allocate-Allocated_example :
    Ensures
      (Allocated sample_objects ok_env 64 48 idle)
      (hrx_buffer_allocate sample_objects (λ d. d) 3 (λ t. params) 7 64 48 3 1 ok_env idle [])
hrx_buffer_allocate-Allocated_example =
    hrx_buffer_allocate-Allocated sample_objects ok_env 64 48 (λ t. refl) ok_env-GivesBuffers
      (λ d. d) 3 (λ t. params) 7 3 1 idle []

-- The compatibility query is the first call, the wait for the allocation the seventh.
hrx_buffer_allocate-BehindAfterWait_example :
    Ensures
      (λ _ s t. BehindAfterWait (fails_at 7) s t)
      (hrx_buffer_allocate sample_objects (λ d. d) 3 (λ t. params) 7 64 48 3 1 (fails_at 7) idle [])
hrx_buffer_allocate-BehindAfterWait_example =
    hrx_buffer_allocate-BehindAfterWait sample_objects (fails_at 7) 64 48 (fails_at-GivesBuffers 7)
      (λ d. d) 3 (λ t. params) 7 3 1 idle [] tt (ground arith)
