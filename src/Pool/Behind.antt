-- ===== src/Pool/Behind.antt =====
-- crates/hrx-libhrx/src/buffer.rs: a stream's timepoint after a failed `hrx_buffer_allocate`.
use hrx_system_rs.Base.{ℕ, ◌+◌, ◌^◌, ◌<◌, ◌≡◌, Option, none, some, List, [], ◌∷◌, add_u64, arith}
use hrx_system_rs.Ffi.{Env, HrxStatus, IreeStatus}
use hrx_system_rs.Ffi.Ensures.{Ensures, bind}
use hrx_system_rs.Hal.{
  queue_affinity_any, Objects, HalCall, HalBufferParams, buffer_ref_release, pool_ref_release,
  semaphore_wait,
}
use hrx_system_rs.Stream.{HrxStreamS, flush_inner, wait_list_at}
use hrx_system_rs.Stream.Timeline.{hrx_stream_flush}
use hrx_system_rs.Stream.Order.{latest}
use hrx_system_rs.Pool.{HrxExactPool, hrx_iree_exact_pool_create}
use hrx_system_rs.Pool.Outcome.{GivesBuffers}
use hrx_system_rs.Pool.Allocate.{hrx_buffer_allocate, address_of, pooled, flushed}

-- The last call is neither the release of a pool nor a wait.
abbrev pub NoWaitOrRelease : List HalCall → Type 0
NoWaitOrRelease (pool_ref_release p ∷ t) = ⊥
NoWaitOrRelease (semaphore_wait sem value timeout ∷ t) = ⊥
NoWaitOrRelease _ = Unit {0}

-- After a wait that was followed by the two releases, the newest value that an accepted submission
-- signals is above the stream's timepoint.
abbrev pub BehindAfterWait : Env HalCall → HrxStreamS → List HalCall → Type 0
BehindAfterWait e s
      (pool_ref_release p ∷ buffer_ref_release b ∷ semaphore_wait sem value timeout ∷ t) =
    s.timepoint
    < latest e (pool_ref_release p ∷ buffer_ref_release b ∷ semaphore_wait sem value timeout ∷ t)
BehindAfterWait e s _ = Unit {0}

module _ (o : Objects) (e : Env HalCall) (size mem_type : ℕ) where
  abbrev Unmoved :
      HrxStreamS → IreeStatus × Option HrxExactPool → HrxStreamS → List HalCall → Type 0
  Unmoved s r s' t = (s' ≡ s) × NoWaitOrRelease t

  create-Unmoved :
      (params : HalBufferParams) (proactor_pool allocator : ℕ) (s : HrxStreamS) (t : List HalCall)
      → NoWaitOrRelease t
      → Ensures (Unmoved s) (hrx_iree_exact_pool_create proactor_pool allocator params e s t)
  unfolding hrx_iree_exact_pool_create
  create-Unmoved params proactor_pool allocator s t h = ground arith

  pooled-BehindAfterWait :
      GivesBuffers e
      → (params : HalBufferParams) (r : IreeStatus × Option HrxExactPool) (s : HrxStreamS)
        (t : List HalCall)
      → NoWaitOrRelease t
      → s.timepoint + 1 < 2 ^ 64
      → Ensures (λ _ s' t'. BehindAfterWait e s' t') (pooled o params mem_type size r e s t)
  pooled-BehindAfterWait gives params (some c, pool) s t h room = ground arith
  pooled-BehindAfterWait gives params (none, pool) s t h room =
      let sem = o.semaphore_hal s.semaphore in
      ground (
        arith,
        gives (o.hal_device s.device) queue_affinity_any (wait_list_at sem s.timepoint)
            (record { semaphore = sem; value = add_u64 s.timepoint 1 } ∷ []) (address_of pool)
            params size t,
      )

  flushed-BehindAfterWait :
      GivesBuffers e
      → (params : HalBufferParams) (proactor_pool allocator : ℕ) (f : HrxStatus) (s : HrxStreamS)
        (t : List HalCall)
      → NoWaitOrRelease t
      → s.timepoint + 1 < 2 ^ 64
      → Ensures
          (λ _ s' t'. BehindAfterWait e s' t')
          (flushed o proactor_pool allocator params mem_type size f e s t)
  flushed-BehindAfterWait gives params proactor_pool allocator (some p) s t h room = ground arith
  flushed-BehindAfterWait gives params proactor_pool allocator none s t h room =
      bind (Unmoved s) (λ _ s' t'. BehindAfterWait e s' t')
        (hrx_iree_exact_pool_create proactor_pool allocator params e s t) _
        (create-Unmoved params proactor_pool allocator s t h)
        (λ r s' t' u. rw u.0 (pooled-BehindAfterWait gives params r s t' u.1 room))

  abbrev Ready : HrxStatus → HrxStreamS → List HalCall → Type 0
  Ready f s t = NoWaitOrRelease t × (s.timepoint + 1 < 2 ^ 64)

  flush-Ready :
      (stream : ℕ) (s : HrxStreamS) (t : List HalCall)
      → NoWaitOrRelease t
      → s.timepoint + 2 < 2 ^ 64
      → Ensures Ready (hrx_stream_flush o stream e s t)
  unfolding hrx_stream_flush flush_inner
  flush-Ready stream s t h room = ground arith

  -- When `hrx_buffer_allocate` gives its buffer and its pool back after a wait, which is what it does
  -- when IREE has accepted the allocation and the wait for it fails, an accepted submission signals a
  -- value above the stream's timepoint: the next submission of the stream signals that value again.
  -- An accepted allocation must give a buffer, and the timeline must not be at its end.
  pub hrx_buffer_allocate-BehindAfterWait :
      GivesBuffers e
      → (hal_allocator : ℕ → ℕ) (proactor_pool : ℕ) (normalized : List HalCall → HalBufferParams)
        (stream usage buffer : ℕ) (s : HrxStreamS) (t : List HalCall)
      → NoWaitOrRelease t
      → s.timepoint + 2 < 2 ^ 64
      → Ensures
          (λ _ s' t'. BehindAfterWait e s' t')
          (hrx_buffer_allocate o hal_allocator proactor_pool normalized stream size mem_type usage
            buffer e s t)
  unfolding hrx_buffer_allocate
  hrx_buffer_allocate-BehindAfterWait gives hal_allocator proactor_pool normalized stream usage
        buffer s t h room =
      grind (arith, flush-Ready stream, flushed-BehindAfterWait gives)
