-- ===== src/Stream.antt =====
-- crates/hrx-libhrx/src/stream.rs: a stream owns a timeline semaphore and at most one pending
-- command buffer. The state is the object behind the handle; the handle itself is an argument,
-- for the NULL tests. Arithmetic on the 64-bit timeline wraps, as in a release build.
pub mod Timeline
pub mod Recording
pub mod Client
pub mod Ownership
pub mod Order
pub mod Outcome
use hrx_system_rs.Base.{
  ℕ, ◌+◌, ◌-◌, ◌^◌, Bool, true, false, not, ◌&&◌, ◌||◌, Option, none, some, List, [], ◌∷◌, ltb, leb,
  ◌==◌, if◌then◌else◌, add_u64, u64_max,
}
use hrx_system_rs.Ffi.{HrxStatus, IreeStatus, M, pure, ◌>>=◌, ◌>>◌, call, emit, get, modify}
use hrx_system_rs.Hal.{
  HalCall, Objects, HalBufferRef, SemaphoreValue, Command, fill_buffer, copy_buffer, update_buffer,
  execution_barrier, dispatch, command_buffer_create, command_buffer_begin, command_buffer_end,
  command_buffer_release, record_command, queue_execute, queue_barrier, device_retain,
  device_release, hrx_semaphore_release, is_null, mode_one_shot, category_transfer,
  category_dispatch, queue_affinity_any, stage_command_retire, stage_command_issue,
  memory_access_all,
}
use hrx_system_rs.Status.{HrxStatusCode, fail, from_iree, check, check_hrx}
use hrx_system_rs.Semaphore.{hrx_semaphore_create, hrx_semaphore_query, hrx_semaphore_wait}
use hrx_system_rs.Queue.Bindings.{
  HrxBufferRef, HrxDispatchConfig, CArray, is_missing, items, hal_config, build_hal_bindings,
}

pub record HrxStreamS : Type 0 where
  pub timepoint : ℕ
  pub pending_cb : ℕ
  pub has_pending_work : Bool
  pub flags : ℕ
  pub semaphore : ℕ
  pub device : ℕ

pub record HrxTimelinePoint : Type 0 where
  pub semaphore : ℕ
  pub value : ℕ

abbrev pub S : Type 0 → Type 0
S A = M HalCall HrxStreamS A

-- The barrier of `record_ordering_barrier` and of `hrx_stream_execution_barrier`.
abbrev pub full_barrier : Command
full_barrier = execution_barrier stage_command_retire stage_command_issue (memory_access_all)

-- The wait list of a submission at this timepoint: empty at the start of the timeline.
abbrev pub wait_list_at : ℕ → ℕ → List SemaphoreValue
wait_list_at semaphore timepoint =
    if ltb 0 timepoint then record { semaphore = semaphore; value = timepoint } ∷ [] else []

abbrev pub set_pending_cb : ℕ → HrxStreamS → HrxStreamS
set_pending_cb cb s = record s { pending_cb = cb }

abbrev pub set_timepoint : ℕ → HrxStreamS → HrxStreamS
set_timepoint value s = record s { timepoint = value }

abbrev pub set_has_pending_work : Bool → HrxStreamS → HrxStreamS
set_has_pending_work b s = record s { has_pending_work = b }

unfoldable pub record_ordering_barrier : S IreeStatus
record_ordering_barrier = do
  s ← get
  r ← call (record_command s.pending_cb full_barrier)
  pure r.status

-- The handle that was written, or the NULL that the variable starts with.
abbrev pub or_null : Option ℕ → ℕ
or_null none = 0
or_null (some p) = p

abbrev pub new_stream : ℕ → ℕ → ℕ → HrxStreamS
new_stream device flags semaphore = record {
  timepoint = 0;
  pending_cb = 0;
  has_pending_work = false;
  flags = flags;
  semaphore = semaphore;
  device = device;
}

module _ (o : Objects) where
  -- `iree_hal_command_buffer_begin` failed: the new command buffer is released again.
  abbrev begun : ℕ → IreeStatus → S HrxStatus
  begun cb none = do modify (set_pending_cb cb); pure none
  begun cb (some c) = do
    emit (command_buffer_release cb)
    modify (set_pending_cb 0)
    from_iree (some c)

  unfoldable pub begin_cb : S HrxStatus
  begin_cb = do
    s ← get
    if not (is_null s.pending_cb) then pure none else do
      r ← call (
          command_buffer_create (o.hal_device s.device) mode_one_shot
            (category_transfer + category_dispatch) queue_affinity_any)
      check r.status do b ← call (command_buffer_begin r.ptr); begun r.ptr b.status

  abbrev submitted : ℕ → ℕ → S HrxStatus
  submitted cb signal_value = do
    modify (set_timepoint signal_value)
    emit (command_buffer_release cb)
    modify λ s. set_has_pending_work false (set_pending_cb 0 s)
    pure none

  unfoldable pub flush_inner : S HrxStatus
  flush_inner = do
    s ← get
    if not s.has_pending_work || is_null s.pending_cb then pure none else do
      r ← call (command_buffer_end s.pending_cb)
      check r.status do
        let sem = o.semaphore_hal s.semaphore
        let signal_value = add_u64 s.timepoint 1
        x ← call (
            queue_execute (o.hal_device s.device) queue_affinity_any (wait_list_at sem s.timepoint)
              (record { semaphore = sem; value = signal_value } ∷ []) s.pending_cb)
        check x.status (submitted s.pending_cb signal_value)

  -- `Drop`, then the drops of the `semaphore` and `device` fields.
  abbrev flush_if_pending : Bool → S (Unit {0})
  flush_if_pending false = pure tt
  flush_if_pending true = do ignored ← flush_inner; pure tt

  abbrev release_leftover : ℕ → S (Unit {0})
  release_leftover cb = if is_null cb then pure tt else emit (command_buffer_release cb)

  abbrev wait_for_timeline : HrxStreamS → S (Unit {0})
  wait_for_timeline s =
      if ltb 0 s.timepoint
      then (do ignored ← hrx_semaphore_wait o s.semaphore s.timepoint u64_max; pure tt)
      else pure tt

  unfoldable pub drop_stream : S (Unit {0})
  unfolding flush_inner hrx_semaphore_wait
  drop_stream = do
    s ← get
    flush_if_pending s.has_pending_work
    s' ← get
    wait_for_timeline s'
    release_leftover s'.pending_cb
    emit (hrx_semaphore_release s'.semaphore)
    emit (device_release s'.device)

  abbrev created :
      {T : Type 0} → ℕ → ℕ → HrxStatus × Option ℕ → M HalCall T (HrxStatus × Option HrxStreamS)
  created device flags (none, semaphore) =
      pure (none, some (new_stream device flags (or_null semaphore)))
  created device flags (some p, semaphore) = do emit (device_release device); pure (some p, none)

  unfoldable pub hrx_stream_create :
      {T : Type 0} → ℕ → ℕ → ℕ → M HalCall T (HrxStatus × Option HrxStreamS)
  hrx_stream_create device flags stream =
      if is_null device || is_null stream
      then (do
        status ← fail HrxStatusCode.invalid_argument "device or stream is NULL"
        pure (status, none))
      else do
        emit (device_retain device)
        st ← hrx_semaphore_create o device 0 1
        created device flags st
