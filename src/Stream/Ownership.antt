-- ===== src/Stream/Ownership.antt =====
-- crates/hrx-libhrx/src/stream.rs: the command buffers that a stream creates and releases.
use hrx_system_rs.Base.{ℕ, ◌≡◌, some, List, [], ◌∷◌, if◌then◌else◌, arith}
use hrx_system_rs.Ffi.{Env, ◌>>=◌}
use hrx_system_rs.Ffi.Ensures.{Ensures, bind}
use hrx_system_rs.Hal.{HalCall, Objects, is_null, mode_one_shot, queue_affinity_any, Command}
use hrx_system_rs.Hal.Ledger.{open_buffers, CreatesBuffers}
use hrx_system_rs.Stream.{
  HrxStreamS, S, begin_cb, flush_inner, drop_stream, new_stream, record_ordering_barrier,
}
use hrx_system_rs.Semaphore.{hrx_semaphore_wait, hrx_semaphore_query}
use hrx_system_rs.Stream.Timeline.{
  hrx_stream_flush, hrx_stream_wait, hrx_stream_synchronize, hrx_stream_query,
  hrx_stream_get_timeline_position, hrx_stream_get_semaphore, hrx_stream_get_device,
  hrx_stream_advance_timeline, hrx_stream_wait_on,
}
use hrx_system_rs.Stream.Recording.{
  record_ordered, hrx_stream_fill_buffer, hrx_stream_copy_buffer, hrx_stream_update_buffer,
  hrx_stream_execution_barrier, hrx_stream_dispatch,
}
use hrx_system_rs.Stream.Client.{
  StreamCall, flush, wait, synchronize, execution_barrier, query, position, advance, get_semaphore,
  get_device, wait_on, fill, copy, update, dispatch, step, run,
}

-- The command buffer that the stream holds.
abbrev pub held : HrxStreamS → List ℕ
held s = if is_null s.pending_cb then [] else s.pending_cb ∷ []

-- What the trace leaves open is what the stream holds.
abbrev pub Owns : Env HalCall → HrxStreamS → List HalCall → Type 0
Owns e s t = open_buffers e t ≡ some (held s)

abbrev pub Keeps : Env HalCall → {A : Type 0} → S A → Type 0
Keeps e m =
    (s : HrxStreamS) (t : List HalCall) → Owns e s t → Ensures (λ _ s' t'. Owns e s' t') (m e s t)

module _ (o : Objects) (e : Env HalCall) (h : CreatesBuffers e) where
  pub begin_cb-Keeps : Keeps e (begin_cb o)
  unfolding begin_cb
  begin_cb-Keeps s t own =
      ground (arith, h (o.hal_device s.device) mode_one_shot 3 queue_affinity_any t)

  pub flush_inner-Keeps : Keeps e (flush_inner o)
  unfolding flush_inner
  flush_inner-Keeps s t own = ground arith

  pub record_ordered-Keeps : (c : Command) → Keeps e (record_ordered o c)
  unfolding record_ordering_barrier
  record_ordered-Keeps c s t own = ground arith

  pub step-Keeps : (c : StreamCall) → Keeps e (step o c)
  unfolding step hrx_stream_flush hrx_stream_wait hrx_stream_synchronize hrx_stream_query
      hrx_stream_get_timeline_position hrx_stream_get_semaphore hrx_stream_get_device
      hrx_stream_advance_timeline hrx_stream_wait_on hrx_semaphore_wait hrx_semaphore_query
      hrx_stream_execution_barrier hrx_stream_fill_buffer hrx_stream_copy_buffer
      hrx_stream_update_buffer hrx_stream_dispatch record_ordering_barrier
  step-Keeps (flush p) s t own = ground (arith, flush_inner-Keeps s t own)
  step-Keeps (wait p) s t own = ground arith
  step-Keeps (synchronize p) s t own = ground (arith, flush_inner-Keeps s t own)
  step-Keeps (query p q) s t own = ground arith
  step-Keeps (position p q) s t own = ground arith
  step-Keeps (get_semaphore p q) s t own = ground arith
  step-Keeps (get_device p q) s t own = ground arith
  step-Keeps (advance p q) s t own = ground arith
  step-Keeps (wait_on p q) s t own = ground (arith, flush_inner-Keeps s t own)
  step-Keeps (execution_barrier p) s t own = ground (arith, begin_cb-Keeps s t own)
  step-Keeps (fill p b i n q k) s t own = ground (arith, begin_cb-Keeps s t own)
  step-Keeps (copy p a i b j n) s t own = ground (arith, begin_cb-Keeps s t own)
  step-Keeps (update p q n b i) s t own = ground (arith, begin_cb-Keeps s t own)
  step-Keeps (dispatch p x i c k b f) s t own = ground (arith, begin_cb-Keeps s t own)

  pub run-Keeps : (cs : List StreamCall) → Keeps e (run o cs)
  unfolding run
  run-Keeps [] s t own = own
  run-Keeps (c ∷ cs) s t own =
      bind (λ _ s' t'. Owns e s' t') (λ _ s' t'. Owns e s' t') (step o c e s t) _
        (step-Keeps c s t own) (λ _. run-Keeps cs)

  drop_stream-closes :
      (s : HrxStreamS) (t : List HalCall)
      → Owns e s t
      → Ensures (λ _ s' t'. open_buffers e t' ≡ some []) (drop_stream o e s t)
  unfolding drop_stream
  drop_stream-closes s t own = ground arith

  -- From a trace that leaves no command buffer open, a new stream may serve any sequence of calls of
  -- its public operations and then be dropped: the run does not fault, and every command buffer that
  -- was created has been released exactly once. It holds whatever IREE and libc answer, failures of
  -- every call included, if only a successful creation gives a buffer that is not NULL.
  pub run-drop_stream-closes :
      (device flags semaphore : ℕ) (cs : List StreamCall) (t : List HalCall)
      → open_buffers e t ≡ some []
      → Ensures
          (λ _ s' t'. open_buffers e t' ≡ some [])
          ((run o cs >>= λ _. drop_stream o) e (new_stream device flags semaphore) t)
  run-drop_stream-closes device flags semaphore cs t closed =
      bind (λ _ s' t'. Owns e s' t') (λ _ s' t'. open_buffers e t' ≡ some []) (run o cs e _ t) _
        (run-Keeps cs _ t closed) (λ _. drop_stream-closes)
