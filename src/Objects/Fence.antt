-- ===== src/Objects/Fence.antt =====
-- crates/hrx-libhrx/src/fence.rs: the timeline fence. The IREE fence and the IREE semaphore behind a
-- live handle are read through `fence_hal` and `semaphore_hal`.
use hrx_system_rs.Base.{ℕ, ◌||◌, Option, none, some, if◌then◌else◌, String}
use hrx_system_rs.Ffi.{HrxStatus, IreeStatus, pure, panic, ◌>>=◌, call}
use hrx_system_rs.Hal.{is_null}
use hrx_system_rs.Semaphore.{to_timeout}
use hrx_system_rs.Status.{HrxStatusCode, fail, from_iree}
use hrx_system_rs.Objects.{
  O, fence_create, fence_create_at, fence_insert, fence_extend, fence_signal, fence_wait,
}

module _ (fence_hal semaphore_hal : ℕ → ℕ) {S : Type 0} where
  -- A status, and the IREE fence behind `*fence` when there is one.
  abbrev wrap_fence : IreeStatus → ℕ → O S (HrxStatus × Option ℕ)
  wrap_fence none hal = if is_null hal then panic else pure (none, some hal)
  wrap_fence (some c) hal = do status ← from_iree (some c); pure (status, none)

  abbrev refuse : String → O S (HrxStatus × Option ℕ)
  refuse message = do status ← fail HrxStatusCode.invalid_argument message; pure (status, none)

  unfoldable pub hrx_fence_create : ℕ → ℕ → O S (HrxStatus × Option ℕ)
  hrx_fence_create capacity fence =
      if is_null fence
      then refuse "fence is NULL"
      else do r ← call (fence_create capacity); wrap_fence r.status r.ptr

  unfoldable pub hrx_fence_create_at : ℕ → ℕ → ℕ → O S (HrxStatus × Option ℕ)
  hrx_fence_create_at semaphore value fence =
      if is_null semaphore || is_null fence
      then refuse "semaphore or fence is NULL"
      else do r ← call (fence_create_at (semaphore_hal semaphore) value); wrap_fence r.status r.ptr

  unfoldable pub hrx_fence_insert : ℕ → ℕ → ℕ → O S HrxStatus
  hrx_fence_insert fence semaphore value =
      if is_null fence || is_null semaphore
      then fail HrxStatusCode.invalid_argument "fence or semaphore is NULL"
      else do
        r ← call (fence_insert (fence_hal fence) (semaphore_hal semaphore) value)
        from_iree r.status

  unfoldable pub hrx_fence_extend : ℕ → ℕ → O S HrxStatus
  hrx_fence_extend into_fence from_fence =
      if is_null into_fence || is_null from_fence
      then fail HrxStatusCode.invalid_argument "into_fence or from_fence is NULL"
      else do
        r ← call (fence_extend (fence_hal into_fence) (fence_hal from_fence))
        from_iree r.status

  unfoldable pub hrx_fence_signal : ℕ → O S HrxStatus
  hrx_fence_signal fence =
      if is_null fence
      then fail HrxStatusCode.invalid_argument "fence is NULL"
      else do r ← call (fence_signal (fence_hal fence)); from_iree r.status

  unfoldable pub hrx_fence_wait : ℕ → ℕ → O S HrxStatus
  hrx_fence_wait fence timeout_ns =
      if is_null fence
      then fail HrxStatusCode.invalid_argument "fence is NULL"
      else do r ← call (fence_wait (fence_hal fence) (to_timeout timeout_ns)); from_iree r.status
