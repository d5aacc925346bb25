-- ===== src/Pool.antt =====
-- crates/hrx-libhrx/src/pool.rs: the exact pool, which backs each reservation by one allocation of the
-- requested size. IREE calls the functions of its vtable.
pub mod Allocate
pub mod Reservations
pub mod Lifetime
pub mod Outcome
pub mod Behind
use hrx_system_rs.Base.{ℕ, Bool, ◌&&◌, not, Option, none, some, ◌==◌, ◌%◌, if◌then◌else◌}
use hrx_system_rs.Ffi.{IreeStatus, M, pure, ◌>>=◌, ◌>>◌, call, emit}
use hrx_system_rs.Hal.{
  HalCall, HalBufferParams, is_null, allocate_buffer, buffer_byte_length, buffer_ref_retain,
  buffer_ref_release, proactor_pool_get, notification_create, notification_release,
  notification_signal, hal_allocator_retain, hal_allocator_release, host_malloc, host_free,
}

-- `address` is where the object was allocated.
pub record HrxExactPool : Type 0 where
  pub address : ℕ
  pub allocator : ℕ
  pub params : HalBufferParams
  pub notification : ℕ

pub record PoolReservation : Type 0 where
  pub offset : ℕ
  pub length : ℕ
  pub block_handle : ℕ

unfoldable pub params_match : HalBufferParams → HalBufferParams → Bool
params_match lhs rhs =
    (lhs.type_ == rhs.type_)
    && (lhs.access == rhs.access)
    && (lhs.usage == rhs.usage)
    && (lhs.queue_affinity == rhs.queue_affinity)
    && (lhs.min_alignment == rhs.min_alignment)

-- IREE_STATUS_INVALID_ARGUMENT and IREE_STATUS_FAILED_PRECONDITION.
abbrev iree_invalid_argument : ℕ
iree_invalid_argument = 3

abbrev iree_failed_precondition : ℕ
iree_failed_precondition = 9

-- IREE_HAL_POOL_MATERIALIZE_FLAG_TRANSFER_RESERVATION_OWNERSHIP is the lowest bit of the flags.
abbrev pub transfers : ℕ → Bool
transfers flags = flags % 2 == 1

module _ {S : Type 0} where
  unfoldable pub pool_destroy : HrxExactPool → M HalCall S (Unit {0})
  pool_destroy pool = do
    emit (notification_release pool.notification)
    emit (hal_allocator_release pool.allocator)
    emit (host_free pool.address)

  abbrev reserved : IreeStatus → ℕ → M HalCall S (IreeStatus × Option PoolReservation)
  reserved (some c) buffer = pure (some c, none)
  reserved none buffer = do
    n ← call (buffer_byte_length buffer)
    pure (none, some (record { offset = 0; length = n.num; block_handle = buffer }))

  -- The reservation, when it is made, stands beside the status.
  unfoldable pub pool_acquire_reservation :
      HrxExactPool → ℕ → M HalCall S (IreeStatus × Option PoolReservation)
  pool_acquire_reservation pool size =
      if size == 0
      then pure (some iree_invalid_argument, none)
      else do r ← call (allocate_buffer pool.allocator pool.params size); reserved r.status r.ptr

  unfoldable pub pool_release_reservation : HrxExactPool → PoolReservation → M HalCall S (Unit {0})
  pool_release_reservation pool reservation =
      if is_null reservation.block_handle then pure tt else do
        emit (buffer_ref_release reservation.block_handle)
        emit (notification_signal pool.notification)

  -- The value of `*out_buffer` stands beside the status.
  unfoldable pub pool_materialize_reservation :
      HrxExactPool → HalBufferParams → PoolReservation → ℕ → M HalCall S (IreeStatus × ℕ)
  pool_materialize_reservation pool params reservation flags =
      if not (params_match pool.params params)
      then pure (some iree_invalid_argument, 0)
      else if is_null reservation.block_handle
      then pure (some iree_invalid_argument, 0)
      else if transfers flags
      then pure (none, reservation.block_handle)
      else do
        emit (buffer_ref_retain reservation.block_handle)
        pure (none, reservation.block_handle)

  abbrev notified :
      IreeStatus → ℕ → ℕ → HalBufferParams → ℕ → M HalCall S (IreeStatus × Option HrxExactPool)
  notified none address allocator params notification = pure (
    none,
    some (record {
      address = address;
      allocator = allocator;
      params = params;
      notification = notification;
    }),
  )
  notified (some c) address allocator params notification = do
    emit (hal_allocator_release allocator)
    emit (host_free address)
    pure (some c, none)

  abbrev with_memory :
      ℕ → ℕ → HalBufferParams → IreeStatus → ℕ → M HalCall S (IreeStatus × Option HrxExactPool)
  with_memory proactor allocator params (some c) address = pure (some c, none)
  with_memory proactor allocator params none address = do
    emit (hal_allocator_retain allocator)
    n ← call (notification_create proactor)
    notified n.status address allocator params n.ptr

  abbrev with_proactor :
      ℕ → HalBufferParams → IreeStatus → ℕ → M HalCall S (IreeStatus × Option HrxExactPool)
  with_proactor allocator params (some c) proactor = pure (some c, none)
  with_proactor allocator params none proactor = do
    m ← call (host_malloc 80)
    with_memory proactor allocator params m.status m.ptr

  -- The first argument is the proactor pool of the runtime's shared state.
  unfoldable pub hrx_iree_exact_pool_create :
      ℕ → ℕ → HalBufferParams → M HalCall S (IreeStatus × Option HrxExactPool)
  hrx_iree_exact_pool_create proactor_pool allocator params =
      if is_null proactor_pool then pure (some iree_failed_precondition, none) else do
        r ← call (proactor_pool_get proactor_pool)
        with_proactor allocator params r.status r.ptr
