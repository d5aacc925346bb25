-- ===== src/Stream/Client.antt =====
-- A client of crates/hrx-libhrx/src/stream.rs: any sequence of calls of its public operations, whatever the
-- calls return.
use hrx_system_rs.Base.{ℕ, Option, List, [], ◌∷◌}
use hrx_system_rs.Ffi.{pure, ◌>>=◌, ◌>>◌}
use hrx_system_rs.Hal.{Objects}
use hrx_system_rs.Queue.Bindings.{HrxBufferRef, HrxDispatchConfig, CArray}
use hrx_system_rs.Stream.{HrxTimelinePoint, S}
use hrx_system_rs.Stream.Timeline.{
  hrx_stream_flush, hrx_stream_wait, hrx_stream_synchronize, hrx_stream_query,
  hrx_stream_get_timeline_position, hrx_stream_get_semaphore, hrx_stream_get_device,
  hrx_stream_advance_timeline, hrx_stream_wait_on,
}
use hrx_system_rs.Stream.Recording.{
  hrx_stream_fill_buffer, hrx_stream_copy_buffer, hrx_stream_update_buffer,
  hrx_stream_execution_barrier, hrx_stream_dispatch,
}

-- A call with its arguments, the handle of the stream first.
pub data StreamCall : Type 0 where
  flush wait synchronize execution_barrier : ℕ → StreamCall
  query position advance get_semaphore get_device : ℕ → ℕ → StreamCall
  wait_on : ℕ → HrxTimelinePoint → StreamCall
  fill copy : ℕ → ℕ → ℕ → ℕ → ℕ → ℕ → StreamCall
  update : ℕ → ℕ → ℕ → ℕ → ℕ → StreamCall
  dispatch : ℕ → ℕ → ℕ → Option HrxDispatchConfig → ℕ × ℕ → CArray HrxBufferRef → ℕ → StreamCall

abbrev ignore : {A : Type 0} → S A → S (Unit {0})
ignore m = do a ← m; pure tt

module _ (o : Objects) where
  unfoldable pub step : StreamCall → S (Unit {0})
  step (flush h) = ignore (hrx_stream_flush o h)
  step (wait h) = ignore (hrx_stream_wait o h)
  step (synchronize h) = ignore (hrx_stream_synchronize o h)
  step (execution_barrier h) = ignore (hrx_stream_execution_barrier o h)
  step (query h p) = ignore (hrx_stream_query o h p)
  step (position h p) = ignore (hrx_stream_get_timeline_position o h p)
  step (get_semaphore h p) = ignore (hrx_stream_get_semaphore o h p)
  step (get_device h p) = ignore (hrx_stream_get_device o h p)
  step (advance h p) = ignore (hrx_stream_advance_timeline o h p)
  step (wait_on h p) = ignore (hrx_stream_wait_on o h p)
  step (fill h b i n p k) = ignore (hrx_stream_fill_buffer o h b i n p k)
  step (copy h a i b j n) = ignore (hrx_stream_copy_buffer o h a i b j n)
  step (update h p n b i) = ignore (hrx_stream_update_buffer o h p n b i)
  step (dispatch h x i c k b f) = ignore (hrx_stream_dispatch o h x i c k b f)

  unfoldable pub run : List StreamCall → S (Unit {0})
  run [] = pure tt
  run (c ∷ cs) = do step c; run cs
