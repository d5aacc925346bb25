-- ===== src/Stream/Recording.antt =====
-- crates/hrx-libhrx/src/stream.rs: the operations that record a command into the pending command
-- buffer.
use hrx_system_rs.Base.{ℕ, true, ◌&&◌, ◌||◌, Option, none, some, List, ltb, if◌then◌else◌}
use hrx_system_rs.Ffi.{HrxStatus, pure, ◌>>=◌, ◌>>◌, call, get, modify}
use hrx_system_rs.Hal.{
  Objects, HalBufferRef, Command, fill_buffer, copy_buffer, update_buffer, dispatch, record_command,
  is_null,
}
use hrx_system_rs.Status.{HrxStatusCode, fail, check, check_hrx}
use hrx_system_rs.Queue.Bindings.{
  HrxBufferRef, HrxDispatchConfig, CArray, is_missing, items, hal_config, build_hal_bindings,
}
use hrx_system_rs.Stream.{S, full_barrier, set_has_pending_work, begin_cb, record_ordering_barrier}

module _ (o : Objects) where
  -- The part that the recording operations share after `begin_cb`: record the command, order it
  -- before the next one, and mark the stream.
  abbrev pub record_ordered : Command → S HrxStatus
  record_ordered c = do
    s ← get
    r ← call (record_command s.pending_cb c)
    check r.status
        do b ← record_ordering_barrier; check b do modify (set_has_pending_work true); pure none

  unfoldable pub hrx_stream_fill_buffer : ℕ → ℕ → ℕ → ℕ → ℕ → ℕ → S HrxStatus
  hrx_stream_fill_buffer stream buffer offset size pattern_ptr pattern_size =
      if is_null stream || is_null buffer || is_null pattern_ptr
      then fail HrxStatusCode.invalid_argument "stream, buffer, or pattern is NULL"
      else do
        b ← begin_cb o
        check_hrx b (
            record_ordered (
              fill_buffer (record { buffer = o.buffer_hal buffer; offset = offset; length = size })
                pattern_ptr pattern_size))

  unfoldable pub hrx_stream_copy_buffer : ℕ → ℕ → ℕ → ℕ → ℕ → ℕ → S HrxStatus
  hrx_stream_copy_buffer stream src src_offset dst dst_offset size =
      if is_null stream || is_null src || is_null dst
      then fail HrxStatusCode.invalid_argument "stream, src, or dst is NULL"
      else do
        b ← begin_cb o
        check_hrx b (
            record_ordered (
              copy_buffer (record { buffer = o.buffer_hal src; offset = src_offset; length = size })
                (record { buffer = o.buffer_hal dst; offset = dst_offset; length = size })))

  unfoldable pub hrx_stream_update_buffer : ℕ → ℕ → ℕ → ℕ → ℕ → S HrxStatus
  hrx_stream_update_buffer stream host_data host_data_size dst dst_offset =
      if is_null stream || is_null host_data || is_null dst
      then fail HrxStatusCode.invalid_argument "stream, host_data, or dst is NULL"
      else do
        b ← begin_cb o
        check_hrx b (
            record_ordered (
              update_buffer host_data (record {
                buffer = o.buffer_hal dst;
                offset = dst_offset;
                length = host_data_size;
              })))

  unfoldable pub hrx_stream_execution_barrier : ℕ → S HrxStatus
  hrx_stream_execution_barrier stream =
      if is_null stream then fail HrxStatusCode.invalid_argument "stream is NULL" else do
        b ← begin_cb o
        check_hrx b do
          s ← get
          r ← call (record_command s.pending_cb full_barrier)
          check r.status do modify (set_has_pending_work true); pure none

  abbrev dispatch_bound :
      ℕ → ℕ → HrxDispatchConfig → ℕ × ℕ → ℕ → Option (List HalBufferRef) → S HrxStatus
  dispatch_bound executable ordinal config constants flags none =
      fail HrxStatusCode.invalid_argument "binding buffer is NULL"
  dispatch_bound executable ordinal config constants flags (some bindings) =
      record_ordered (
        dispatch (o.executable_hal executable) ordinal (hal_config config) constants bindings flags)

  -- The constants are a pointer and a size; `config` is `none` when its pointer is NULL.
  abbrev dispatch_config :
      ℕ → ℕ → Option HrxDispatchConfig → ℕ × ℕ → CArray HrxBufferRef → ℕ → S HrxStatus
  dispatch_config executable ordinal none constants bindings flags =
      fail HrxStatusCode.invalid_argument
        "stream, executable, config, constants, or bindings are invalid"
  dispatch_config executable ordinal (some config) constants bindings flags = do
    b ← begin_cb o
    check_hrx b (
        dispatch_bound executable ordinal config constants flags
          (build_hal_bindings o (items bindings)))

  unfoldable pub hrx_stream_dispatch :
      ℕ → ℕ → ℕ → Option HrxDispatchConfig → ℕ × ℕ → CArray HrxBufferRef → ℕ → S HrxStatus
  hrx_stream_dispatch stream executable ordinal config constants bindings flags =
      if is_null stream
        || is_null executable
        || is_missing bindings
        || (ltb 0 constants.1 && is_null constants.0)
      then fail HrxStatusCode.invalid_argument
          "stream, executable, config, constants, or bindings are invalid"
      else dispatch_config executable ordinal config constants bindings flags
