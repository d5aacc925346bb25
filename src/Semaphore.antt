-- ===== src/Semaphore.antt =====
-- crates/hrx-libhrx/src/semaphore.rs: the timeline semaphore, over the handle of one.
use hrx_system_rs.Base.{ℕ, Option, none, some, ◌==◌, ◌||◌, if◌then◌else◌, as_i64, u64_max}
use hrx_system_rs.Ffi.{IreeStatus, HrxStatus, M, pure, panic, ◌>>=◌, ◌>>◌, call, emit}
use hrx_system_rs.Hal.{
  HalCall, Objects, Timeout, infinite, immediate, relative_ns, is_null, semaphore_create,
  semaphore_query, semaphore_wait, semaphore_signal, device_retain, arc_new, queue_affinity_any,
}
use hrx_system_rs.Status.{HrxStatusCode, fail, from_iree}

-- The timeout that `hrx_semaphore_wait` and `hrx_fence_wait` make of their argument.
unfoldable pub to_timeout : ℕ → Timeout
to_timeout ns =
    if ns == u64_max then infinite else if ns == 0 then immediate else relative_ns (as_i64 ns)

module _ (o : Objects) {S : Type 0} where
  -- `HalSemaphore::from_owned(hal).expect(..)`, the device reference, and the new `Arc`.
  unfoldable pub wrap_semaphore : ℕ → ℕ → IreeStatus → M HalCall S (HrxStatus × Option ℕ)
  wrap_semaphore device hal none = if is_null hal then panic else do
    emit (device_retain device)
    handle ← call (arc_new hal device)
    pure (none, some handle.ptr)
  wrap_semaphore device hal (some c) = do status ← from_iree (some c); pure (status, none)

  -- The new handle, when there is one, stands beside the status.
  unfoldable pub hrx_semaphore_create : ℕ → ℕ → ℕ → M HalCall S (HrxStatus × Option ℕ)
  unfolding wrap_semaphore
  hrx_semaphore_create device initial_value semaphore =
      if is_null device || is_null semaphore
      then (do
        status ← fail HrxStatusCode.invalid_argument "device or semaphore is NULL"
        pure (status, none))
      else do
        r ← call (semaphore_create (o.hal_device device) queue_affinity_any initial_value)
        wrap_semaphore device r.ptr r.status

  -- IREE writes the value whatever the status is.
  unfoldable pub hrx_semaphore_query : ℕ → ℕ → M HalCall S (HrxStatus × Option ℕ)
  hrx_semaphore_query semaphore value =
      if is_null semaphore || is_null value
      then (do
        status ← fail HrxStatusCode.invalid_argument "semaphore or value is NULL"
        pure (status, none))
      else do
        r ← call (semaphore_query (o.semaphore_hal semaphore))
        status ← from_iree r.status
        pure (status, some r.num)

  unfoldable pub hrx_semaphore_wait : ℕ → ℕ → ℕ → M HalCall S HrxStatus
  hrx_semaphore_wait semaphore value timeout_ns =
      if is_null semaphore then fail HrxStatusCode.invalid_argument "semaphore is NULL" else do
        r ← call (semaphore_wait (o.semaphore_hal semaphore) value (to_timeout timeout_ns))
        from_iree r.status

  unfoldable pub hrx_semaphore_signal : ℕ → ℕ → M HalCall S HrxStatus
  hrx_semaphore_signal semaphore value =
      if is_null semaphore
      then fail HrxStatusCode.invalid_argument "semaphore is NULL"
      else do r ← call (semaphore_signal (o.semaphore_hal semaphore) value); from_iree r.status
