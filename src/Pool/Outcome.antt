-- ===== src/Pool/Outcome.antt =====
-- crates/hrx-libhrx/src/buffer.rs: the outcome of `hrx_buffer_allocate`.
use hrx_system_rs.Base.{ℕ, ◌≡◌, ◌≢◌, ◌⊎◌, false, Option, none, some, List, [], ◌∷◌, add_u64, arith}
use hrx_system_rs.Ffi.{Env, HrxStatus}
use hrx_system_rs.Ffi.Ensures.{Ensures}
use hrx_system_rs.Hal.{
  Objects, HalCall, HalBufferParams, SemaphoreValue, queue_alloca, semaphore_wait, infinite,
  device_retain,
}
use hrx_system_rs.Stream.{HrxStreamS, set_timepoint}
use hrx_system_rs.Stream.Outcome.{
  has_work, drained, submission, NeverOutOfMemory, hrx_stream_flush-outcome, FlushOutcome,
  from_iree-ne-none, make_status-ne-none,
}
use hrx_system_rs.Buffer.{HrxBufferS}
use hrx_system_rs.Pool.{hrx_iree_exact_pool_create}
use hrx_system_rs.Pool.Allocate.{hrx_buffer_allocate, flushed}

-- An accepted allocation gives a buffer, as IREE documents.
abbrev pub GivesBuffers : Env HalCall → Type 0
GivesBuffers e =
    (d a : ℕ) (ws ss : List SemaphoreValue) (p : ℕ) (q : HalBufferParams) (n : ℕ) (t : List HalCall)
    → (e.reply (queue_alloca d a ws ss p q n ∷ t)).status ≡ none
    → (e.reply (queue_alloca d a ws ss p q n ∷ t)).ptr ≢ 0

module _ (o : Objects) (e : Env HalCall) (size mem_type : ℕ) where
  -- The last two calls waited, with success, for the stream's timepoint and retained its device.
  abbrev Waited : HrxStreamS → List HalCall → Type 0
  Waited s (r ∷ w ∷ t) =
      (r ≡ device_retain s.device)
      × (w ≡ semaphore_wait (o.semaphore_hal s.semaphore) s.timepoint infinite)
      × ((e.reply (w ∷ t)).status ≡ none)
  Waited s _ = ⊥

  -- A call that IREE accepted is in the trace.
  abbrev WasAccepted : HalCall → List HalCall → Type 0
  WasAccepted c [] = ⊥
  WasAccepted c (x ∷ t) = ((x ≡ c) × ((e.reply (x ∷ t)).status ≡ none)) ⊎ WasAccepted c t

  -- Work that was pending has been submitted.
  abbrev Submitted : HrxStreamS → List HalCall → Type 0
  Submitted s0 t = (has_work s0 ≡ false) ⊎ WasAccepted (submission o e s0) t

  abbrev pub Allocated :
      HrxStreamS → HrxStatus × Option HrxBufferS → HrxStreamS → List HalCall → Type 0
  Allocated s0 (none, some b) s t =
      (s ≡ set_timepoint (add_u64 (drained s0).timepoint 1) (drained s0))
      × Submitted s0 t
      × Waited s t
      × (b.size ≡ size)
      × (b.mem_type ≡ mem_type)
      × (b.map ≡ none)
      × (b.device ≡ s.device)
  Allocated s0 (none, none) s t = ⊥
  Allocated s0 (some p, none) s t = Unit {0}
  Allocated s0 (some p, some b) s t = ⊥

  pooled-Allocated :
      (rich : NeverOutOfMemory e)
      → GivesBuffers e
      → (params : HalBufferParams) (proactor_pool allocator : ℕ) (s0 s : HrxStreamS)
        (t : List HalCall)
      → s ≡ drained s0
      → Submitted s0 t
      → Ensures (Allocated s0) (flushed o proactor_pool allocator params mem_type size none e s t)
  unfolding hrx_iree_exact_pool_create
  pooled-Allocated rich gives params proactor_pool allocator s0 s t same clean =
      grind (arith, from_iree-ne-none o e rich, gives)

  flushed-Allocated :
      (rich : NeverOutOfMemory e)
      → GivesBuffers e
      → (params : HalBufferParams) (proactor_pool allocator : ℕ) (s0 : HrxStreamS) (f : HrxStatus)
        (t0 : List HalCall) (s : HrxStreamS) (t : List HalCall)
      → FlushOutcome o e s0 t0 f s t
      → Ensures (Allocated s0) (flushed o proactor_pool allocator params mem_type size f e s t)
  flushed-Allocated rich gives params proactor_pool allocator s0 none t0 s t h =
      pooled-Allocated rich gives params proactor_pool allocator s0 s t h.0 (ground arith)
  flushed-Allocated rich gives params proactor_pool allocator s0 (some p) t0 s t h = tt

  -- `hrx_buffer_allocate` returns success only with a new unmapped buffer of the size and the type
  -- asked for, on the stream's device, after it submitted the work that was pending on the stream, marked
  -- as such with a command buffer, in a submission that IREE accepted, and waited with success for
  -- the stream's new timepoint; nothing is then pending, and the timepoint is one above that of the
  -- submission, or of the stream when no work was pending. It never faults. Payload allocations must not fail, and an
  -- accepted allocation must give a buffer.
  pub hrx_buffer_allocate-Allocated :
      (rich : NeverOutOfMemory e)
      → GivesBuffers e
      → (hal_allocator : ℕ → ℕ) (proactor_pool : ℕ) (normalized : List HalCall → HalBufferParams)
        (stream usage buffer : ℕ) (s : HrxStreamS) (t : List HalCall)
      → Ensures (Allocated s) (
          hrx_buffer_allocate o hal_allocator proactor_pool normalized stream size mem_type usage
            buffer e s t)
  unfolding hrx_buffer_allocate
  hrx_buffer_allocate-Allocated rich gives hal_allocator proactor_pool normalized stream usage
        buffer s t =
      grind (
        arith,
        make_status-ne-none o e rich,
        hrx_stream_flush-outcome o e rich stream,
        flushed-Allocated rich gives,
      )
