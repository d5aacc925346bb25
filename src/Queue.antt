-- ===== src/Queue.antt =====
-- crates/hrx-libhrx/src/queue_ops.rs: direct queue operations. Each call is a complete submission:
-- wait, one operation, signal. The state is the thread's own, of any type; the operations keep none.
pub mod Bindings
pub mod Release
pub mod Lists
pub mod HostCall
use hrx_system_rs.Base.{
  ℕ, Option, none, some, List, [], ◌∷◌, ltb, ◌==◌, ◌||◌, ◌&&◌, if◌then◌else◌, zero, suc,
}
use hrx_system_rs.Ffi.{IreeStatus, HrxStatus, M, pure, panic, ◌>>=◌, ◌>>◌, call, emit}
use hrx_system_rs.Hal.{
  HalCall, Objects, HalBufferRef, SemaphoreValue, Command, fill_buffer, copy_buffer,
  command_buffer_create, command_buffer_begin, command_buffer_end, command_buffer_release,
  record_command, queue_execute, queue_barrier, queue_dispatch, queue_host_call, malloc, free,
  is_null, mode_one_shot, category_transfer, queue_affinity_any,
}
use hrx_system_rs.Status.{HrxStatusCode, hrx_status_to_iree, fail, from_iree, check}
use Bindings.{
  HrxBufferRef, HrxDispatchConfig, CArray, is_missing, items, hal_config, build_hal_bindings,
}

-- The capacity of the arrays on the stack of each operation.
abbrev pub hrx_max_queue_semaphores : ℕ
hrx_max_queue_semaphores = 16

-- `hrx_semaphore_list_t *`: NULL, or the entries with their handles. The count is the length.
abbrev pub HrxSemaphoreList : Type 0
HrxSemaphoreList = Option (List SemaphoreValue)

unfoldable pub normalize_affinity : ℕ → ℕ
normalize_affinity affinity = if affinity == 0 then queue_affinity_any else affinity

abbrev push_entry : SemaphoreValue → Option (List SemaphoreValue) → Option (List SemaphoreValue)
push_entry x none = none
push_entry x (some xs) = some (x ∷ xs)

-- The loop, with the room that is left in the caller's arrays. `none` is a write past their end, or
-- a read through a NULL handle.
unfoldable pub fill_arrays : Objects → ℕ → List SemaphoreValue → Option (List SemaphoreValue)
fill_arrays o room [] = some []
fill_arrays o zero (x ∷ xs) = none
fill_arrays o (suc room) (x ∷ xs) =
    if is_null x.semaphore
    then none
    else push_entry (record { semaphore = o.semaphore_hal x.semaphore; value = x.value })
        (fill_arrays o room xs)

unfoldable pub to_iree_sem_list : Objects → HrxSemaphoreList → Option (List SemaphoreValue)
to_iree_sem_list o none = some []
to_iree_sem_list o (some xs) = fill_arrays o hrx_max_queue_semaphores xs

module _ {S : Type 0} where
  abbrev pub or_fault : {A : Type 0} → Option A → M HalCall S A
  or_fault none = panic
  or_fault (some a) = pure a

  -- Release the command buffer and report the error, or go on.
  abbrev pub check_releasing : ℕ → IreeStatus → M HalCall S HrxStatus → M HalCall S HrxStatus
  check_releasing cb none rest = rest
  check_releasing cb (some c) rest = do emit (command_buffer_release cb); from_iree (some c)

module _ (o : Objects) {S : Type 0} where
  -- The body that `hrx_queue_fill` and `hrx_queue_copy` share, around their one command.
  unfoldable pub execute_transfer :
      ℕ → ℕ → HrxSemaphoreList → HrxSemaphoreList → Command → M HalCall S HrxStatus
  execute_transfer device affinity waits signals command = do
    let qa = normalize_affinity affinity
    r ← call (command_buffer_create (o.hal_device device) mode_one_shot category_transfer qa)
    check r.status do
      b ← call (command_buffer_begin r.ptr)
      check_releasing r.ptr b.status do
        f ← call (record_command r.ptr command)
        check_releasing r.ptr f.status do
          n ← call (command_buffer_end r.ptr)
          check_releasing r.ptr n.status do
            wl ← or_fault (to_iree_sem_list o waits)
            sl ← or_fault (to_iree_sem_list o signals)
            x ← call (queue_execute (o.hal_device device) qa wl sl r.ptr)
            emit (command_buffer_release r.ptr)
            from_iree x.status

  unfoldable pub hrx_queue_fill :
      ℕ → ℕ → HrxSemaphoreList → HrxSemaphoreList → ℕ → ℕ → ℕ → ℕ → ℕ → M HalCall S HrxStatus
  hrx_queue_fill device affinity waits signals buffer offset size pattern_ptr pattern_size =
      if is_null device || is_null buffer || is_null pattern_ptr
      then fail HrxStatusCode.invalid_argument "device, buffer, or pattern is NULL"
      else execute_transfer device affinity waits signals (
          fill_buffer (record { buffer = o.buffer_hal buffer; offset = offset; length = size })
            pattern_ptr pattern_size)

  unfoldable pub hrx_queue_copy :
      ℕ → ℕ → HrxSemaphoreList → HrxSemaphoreList → ℕ → ℕ → ℕ → ℕ → ℕ → M HalCall S HrxStatus
  hrx_queue_copy device affinity waits signals src src_offset dst dst_offset size =
      if is_null device || is_null src || is_null dst
      then fail HrxStatusCode.invalid_argument "device, src, or dst is NULL"
      else execute_transfer device affinity waits signals (
          copy_buffer (record { buffer = o.buffer_hal src; offset = src_offset; length = size })
            (record { buffer = o.buffer_hal dst; offset = dst_offset; length = size }))

  unfoldable pub hrx_queue_barrier :
      ℕ → ℕ → HrxSemaphoreList → HrxSemaphoreList → M HalCall S HrxStatus
  hrx_queue_barrier device affinity waits signals =
      if is_null device then fail HrxStatusCode.invalid_argument "device is NULL" else do
        wl ← or_fault (to_iree_sem_list o waits)
        sl ← or_fault (to_iree_sem_list o signals)
        r ← call (queue_barrier (o.hal_device device) (normalize_affinity affinity) wl sl)
        from_iree r.status

  abbrev free_on_error : ℕ → IreeStatus → M HalCall S (Unit {0})
  free_on_error thunk none = pure tt
  free_on_error thunk (some c) = emit (free thunk)

  -- The thunk holds the callback and its argument, which IREE hands back to the trampoline.
  unfoldable pub hrx_queue_host_call :
      ℕ → ℕ → HrxSemaphoreList → HrxSemaphoreList → ℕ → M HalCall S HrxStatus
  hrx_queue_host_call device affinity waits signals callback =
      if is_null device || is_null callback
      then fail HrxStatusCode.invalid_argument "device or callback is NULL"
      else do
        thunk ← call (malloc 16)
        if is_null thunk.ptr
            then fail HrxStatusCode.out_of_memory "failed to allocate host call thunk"
            else do
              wl ← or_fault (to_iree_sem_list o waits)
              sl ← or_fault (to_iree_sem_list o signals)
              r ← call (
                  queue_host_call (o.hal_device device) (normalize_affinity affinity) wl sl
                    thunk.ptr)
              free_on_error thunk.ptr r.status
              from_iree r.status

  abbrev dispatch_bound :
      ℕ
      → ℕ
      → HrxSemaphoreList
      → HrxSemaphoreList
      → ℕ
      → ℕ
      → HrxDispatchConfig
      → ℕ × ℕ
      → ℕ
      → Option (List HalBufferRef)
      → M HalCall S HrxStatus
  dispatch_bound device affinity waits signals executable ordinal config constants flags none =
      fail HrxStatusCode.invalid_argument "binding buffer is NULL"
  dispatch_bound device affinity waits signals executable ordinal config constants flags (some bs) =
      do
        wl ← or_fault (to_iree_sem_list o waits)
        sl ← or_fault (to_iree_sem_list o signals)
        r ← call (
            queue_dispatch (o.hal_device device) (normalize_affinity affinity) wl sl
              (o.executable_hal executable) ordinal (hal_config config) constants bs flags)
        from_iree r.status

  abbrev dispatch_config :
      ℕ
      → ℕ
      → HrxSemaphoreList
      → HrxSemaphoreList
      → ℕ
      → ℕ
      → Option HrxDispatchConfig
      → ℕ × ℕ
      → CArray HrxBufferRef
      → ℕ
      → M HalCall S HrxStatus
  dispatch_config device affinity waits signals executable ordinal none constants bindings flags =
      fail HrxStatusCode.invalid_argument
        "device, executable, config, constants, or bindings are invalid"
  dispatch_config device affinity waits signals executable ordinal (some config) constants bindings
        flags =
      dispatch_bound device affinity waits signals executable ordinal config constants flags
        (build_hal_bindings o (items bindings))

  -- The constants are a pointer and a size; `config` is `none` when its pointer is NULL.
  unfoldable pub hrx_queue_dispatch :
      ℕ
      → ℕ
      → HrxSemaphoreList
      → HrxSemaphoreList
      → ℕ
      → ℕ
      → Option HrxDispatchConfig
      → ℕ × ℕ
      → CArray HrxBufferRef
      → ℕ
      → M HalCall S HrxStatus
  hrx_queue_dispatch device affinity waits signals executable ordinal config constants bindings
        flags =
      if is_null device
        || is_null executable
        || is_missing bindings
        || (ltb 0 constants.1 && is_null constants.0)
      then fail HrxStatusCode.invalid_argument
          "device, executable, config, constants, or bindings are invalid"
      else dispatch_config device affinity waits signals executable ordinal config constants
          bindings flags

-- `host_call_trampoline`, which IREE runs once with the thunk of an accepted call. What the user's
-- callback returns is an argument. The thunk is freed before the status goes back to IREE.
unfoldable pub host_call_trampoline : {S : Type 0} → ℕ → HrxStatus → M HalCall S IreeStatus
host_call_trampoline thunk status = do emit (free thunk); pure (hrx_status_to_iree status)
