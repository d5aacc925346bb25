-- ===== src/Pool/Allocate.antt =====
-- crates/hrx-libhrx/src/buffer.rs: `hrx_buffer_allocate`, which allocates in the order of a stream
-- through an exact pool of its own.
use hrx_system_rs.Base.{
  ℕ, ◌%◌, ◌||◌, Option, none, some, List, [], ◌∷◌, ◌==◌, if◌then◌else◌, add_u64,
}
use hrx_system_rs.Ffi.{HrxStatus, IreeStatus, pure, panic, ◌>>=◌, ◌>>◌, call, emit, get, modify}
use hrx_system_rs.Hal.{
  Objects, HalCall, HalBufferParams, is_null, queue_affinity_any, query_buffer_compatibility,
  queue_alloca, semaphore_wait, infinite, buffer_ref_release, pool_ref_release, device_retain,
  memory_access_all,
}
use hrx_system_rs.Status.{HrxStatusCode, fail, from_iree}
use hrx_system_rs.Stream.{S, set_timepoint, wait_list_at}
use hrx_system_rs.Stream.Timeline.{hrx_stream_flush}
use hrx_system_rs.Buffer.{HrxBufferS}
use hrx_system_rs.Buffer.Memory.{new_buffer}
use hrx_system_rs.Pool.{HrxExactPool, hrx_iree_exact_pool_create}

abbrev wanted : ℕ → ℕ → HalBufferParams
wanted mem_type usage = record {
  usage = usage;
  access = memory_access_all;
  type_ = mem_type;
  queue_affinity = 0;
  min_alignment = 0;
}

abbrev pub address_of : Option HrxExactPool → ℕ
address_of none = 0
address_of (some pool) = pool.address

-- The releases are made of a NULL buffer or pool too, which IREE ignores.
abbrev give_up : ℕ → ℕ → ℕ → S (HrxStatus × Option HrxBufferS)
give_up pool buffer c = do
  emit (buffer_ref_release buffer)
  emit (pool_ref_release pool)
  status ← from_iree (some c)
  pure (status, none)

abbrev pub waited : ℕ → ℕ → ℕ → ℕ → ℕ → IreeStatus → S (HrxStatus × Option HrxBufferS)
waited pool buffer signal_value mem_type size (some c) = give_up pool buffer c
waited pool buffer signal_value mem_type size none = if is_null buffer then panic else do
  st ← get
  emit (device_retain st.device)
  modify (set_timepoint signal_value)
  pure (
    none,
    some (new_buffer buffer (if is_null pool then none else some pool) st.device mem_type size),
  )

module _ (o : Objects) where
  abbrev pub queued : ℕ → ℕ → ℕ → ℕ → ℕ → ℕ → IreeStatus → S (HrxStatus × Option HrxBufferS)
  queued pool buffer sem signal_value mem_type size (some c) = give_up pool buffer c
  queued pool buffer sem signal_value mem_type size none = do
    w ← call (semaphore_wait sem signal_value infinite)
    waited pool buffer signal_value mem_type size w.status

  abbrev pub pooled :
      HalBufferParams → ℕ → ℕ → IreeStatus × Option HrxExactPool → S (HrxStatus × Option HrxBufferS)
  pooled params mem_type size (some c, pool) = give_up (address_of pool) 0 c
  pooled params mem_type size (none, pool) = do
    st ← get
    let sem = o.semaphore_hal st.semaphore
    let signal_value = add_u64 st.timepoint 1
    a ← call (
        queue_alloca (o.hal_device st.device) queue_affinity_any (wait_list_at sem st.timepoint)
          (record { semaphore = sem; value = signal_value } ∷ []) (address_of pool) params size)
    queued (address_of pool) a.ptr sem signal_value mem_type size a.status

  abbrev pub flushed :
      ℕ → ℕ → HalBufferParams → ℕ → ℕ → HrxStatus → S (HrxStatus × Option HrxBufferS)
  flushed proactor_pool allocator params mem_type size (some p) = pure (some p, none)
  flushed proactor_pool allocator params mem_type size none = do
    pool ← hrx_iree_exact_pool_create proactor_pool allocator params
    pooled params mem_type size pool

  -- `hal_allocator` reads a device's allocator, `proactor_pool` is the runtime's, and `normalized`
  -- answers the parameters that the compatibility query writes back. The object behind the new
  -- handle stands beside the status.
  unfoldable pub hrx_buffer_allocate :
      (ℕ → ℕ)
      → ℕ
      → (List HalCall → HalBufferParams)
      → ℕ
      → ℕ
      → ℕ
      → ℕ
      → ℕ
      → S (HrxStatus × Option HrxBufferS)
  hrx_buffer_allocate hal_allocator proactor_pool normalized stream size mem_type usage buffer =
      if is_null stream || is_null buffer
      then (do
        status ← fail HrxStatusCode.invalid_argument "stream or buffer is NULL"
        pure (status, none))
      else if size == 0
      then (do
        status ← fail HrxStatusCode.invalid_argument "allocation size must be > 0"
        pure (status, none))
      else do
        st ← get
        q ← call (query_buffer_compatibility (hal_allocator st.device) (wanted mem_type usage) size)
        if q.num % 2 == 0
            then (do
              status ←
                  fail HrxStatusCode.invalid_argument
                    "buffer params are not allocatable on this device"
              pure (status, none))
            else λ e s t.
                (do
                  f ← hrx_stream_flush o stream
                  flushed proactor_pool (hal_allocator st.device) (normalized t) mem_type size f)
                  e s t
