-- ===== src/Stream/Timeline.antt =====
-- crates/hrx-libhrx/src/stream.rs: the operations on the timeline of a stream.
use hrx_system_rs.Base.{
  ℕ, Bool, true, ◌||◌, Option, none, some, [], ◌∷◌, leb, ◌==◌, if◌then◌else◌, add_u64, u64_max,
}
use hrx_system_rs.Ffi.{HrxStatus, pure, ◌>>=◌, ◌>>◌, call, get, modify}
use hrx_system_rs.Hal.{Objects, queue_barrier, is_null, queue_affinity_any}
use hrx_system_rs.Status.{HrxStatusCode, fail, check, check_hrx}
use hrx_system_rs.Semaphore.{hrx_semaphore_query, hrx_semaphore_wait}
use hrx_system_rs.Stream.{HrxTimelinePoint, S, set_timepoint, or_null, flush_inner}

module _ (o : Objects) where
  unfoldable pub hrx_stream_flush : ℕ → S HrxStatus
  hrx_stream_flush stream =
      if is_null stream then fail HrxStatusCode.invalid_argument "stream is NULL" else flush_inner o

  unfoldable pub hrx_stream_wait : ℕ → S HrxStatus
  hrx_stream_wait stream =
      if is_null stream then fail HrxStatusCode.invalid_argument "stream is NULL" else do
        s ← get
        if s.timepoint == 0 then pure none else hrx_semaphore_wait o s.semaphore s.timepoint u64_max

  unfoldable pub hrx_stream_synchronize : ℕ → S HrxStatus
  hrx_stream_synchronize stream =
      if is_null stream
      then fail HrxStatusCode.invalid_argument "stream is NULL"
      else do s ← hrx_stream_flush stream; check_hrx s (hrx_stream_wait stream)

  abbrev queried : ℕ → HrxStatus × Option ℕ → S (HrxStatus × Option Bool)
  queried timepoint (none, current) = pure (none, some (leb timepoint (or_null current)))
  queried timepoint (some p, current) = pure (some p, none)

  -- The value of `*complete`, when it is written, stands beside the status.
  unfoldable pub hrx_stream_query : ℕ → ℕ → S (HrxStatus × Option Bool)
  hrx_stream_query stream complete =
      if is_null stream || is_null complete
      then (do
        status ← fail HrxStatusCode.invalid_argument "stream or complete is NULL"
        pure (status, none))
      else do
        s ← get
        if s.timepoint == 0
            then pure (none, some true)
            else do q ← hrx_semaphore_query o s.semaphore 1; queried s.timepoint q

  unfoldable pub hrx_stream_get_timeline_position : ℕ → ℕ → S (HrxStatus × Option HrxTimelinePoint)
  hrx_stream_get_timeline_position stream position =
      if is_null stream || is_null position
      then (do
        status ← fail HrxStatusCode.invalid_argument "stream or position is NULL"
        pure (status, none))
      else do s ← get; pure (none, some (record { semaphore = s.semaphore; value = s.timepoint }))

  unfoldable pub hrx_stream_advance_timeline : ℕ → ℕ → S (HrxStatus × Option ℕ)
  hrx_stream_advance_timeline stream value =
      if is_null stream || is_null value
      then (do
        status ← fail HrxStatusCode.invalid_argument "stream or value is NULL"
        pure (status, none))
      else do
        modify λ s. set_timepoint (add_u64 s.timepoint 1) s
        s ← get
        pure (none, some s.timepoint)

  unfoldable pub hrx_stream_wait_on : ℕ → HrxTimelinePoint → S HrxStatus
  hrx_stream_wait_on stream position =
      if is_null stream
      then fail HrxStatusCode.invalid_argument "stream is NULL"
      else if is_null position.semaphore
      then fail HrxStatusCode.invalid_argument "position semaphore is NULL"
      else do
        f ← hrx_stream_flush stream
        check_hrx f do
          s ← get
          let signal_value = add_u64 s.timepoint 1
          r ← call (
              queue_barrier (o.hal_device s.device) queue_affinity_any
                (record { semaphore = o.semaphore_hal position.semaphore; value = position.value }
                  ∷ [])
                (record { semaphore = o.semaphore_hal s.semaphore; value = signal_value } ∷ []))
          check r.status do modify (set_timepoint signal_value); pure none

  -- The handles that a stream lends, without a reference.
  unfoldable pub hrx_stream_get_semaphore : ℕ → ℕ → S (HrxStatus × Option ℕ)
  hrx_stream_get_semaphore stream semaphore =
      if is_null stream || is_null semaphore
      then (do
        status ← fail HrxStatusCode.invalid_argument "stream or semaphore is NULL"
        pure (status, none))
      else do s ← get; pure (none, some s.semaphore)

  unfoldable pub hrx_stream_get_device : ℕ → ℕ → S (HrxStatus × Option ℕ)
  hrx_stream_get_device stream device =
      if is_null stream || is_null device
      then (do
        status ← fail HrxStatusCode.invalid_argument "stream or device is NULL"
        pure (status, none))
      else do s ← get; pure (none, some s.device)
