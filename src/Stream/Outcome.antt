-- ===== src/Stream/Outcome.antt =====
-- crates/hrx-libhrx/src/stream.rs: the outcomes of a flush, of a synchronization and of a recording.
use hrx_system_rs.Base.{
  ℕ, Bool, add_u64, if◌then◌else◌, ◌≡◌, ◌≢◌, ◌⊎◌, true, false, not, ◌&&◌, none, some, suc, Option,
  String, List, [], ◌∷◌, arith,
}
use hrx_system_rs.Ffi.{Env, HrxStatus, ◌>>=◌}
use hrx_system_rs.Ffi.Ensures.{Ensures, bind}
use hrx_system_rs.Hal.{
  HalCall, Objects, HalBufferRef, Command, fill_buffer, copy_buffer, update_buffer, record_command,
  infinite, is_null, queue_execute, command_buffer_end, command_buffer_release, mode_one_shot,
  queue_affinity_any, semaphore_wait,
}
use hrx_system_rs.Hal.Ledger.{CreatesBuffers}
use hrx_system_rs.Status.{hrx_status_from_iree, hrx_make_status, check_hrx}
use hrx_system_rs.Status.Codes.{is_ok-from_iree}
use hrx_system_rs.Semaphore.{hrx_semaphore_wait, to_timeout}
use hrx_system_rs.Stream.{
  HrxStreamS, wait_list_at, full_barrier, begin_cb, flush_inner, record_ordering_barrier,
}
use hrx_system_rs.Stream.Timeline.{hrx_stream_flush, hrx_stream_wait, hrx_stream_synchronize}
use hrx_system_rs.Stream.Recording.{
  record_ordered, hrx_stream_fill_buffer, hrx_stream_copy_buffer, hrx_stream_update_buffer,
}

-- libc's `malloc` of a status payload never fails.
abbrev pub NeverOutOfMemory : Env HalCall → Type 0
NeverOutOfMemory e = (t : List HalCall) → e.malloc_fails t ≡ false

-- Work is pending: it is marked as such, and there is a command buffer.
abbrev pub has_work : HrxStreamS → Bool
has_work s = s.has_pending_work && not (is_null s.pending_cb)

-- The stream after its pending work is submitted.
abbrev pub drained : HrxStreamS → HrxStreamS
drained s =
    if has_work s
    then record s { timepoint = add_u64 s.timepoint 1; pending_cb = 0; has_pending_work = false }
    else s

module _ (o : Objects) (e : Env HalCall) where
  -- The pending command buffer, after the stream's timepoint, to signal the next one.
  abbrev pub submission : HrxStreamS → HalCall
  submission s =
      queue_execute (o.hal_device s.device) queue_affinity_any
        (wait_list_at (o.semaphore_hal s.semaphore) s.timepoint)
        (record { semaphore = o.semaphore_hal s.semaphore; value = add_u64 s.timepoint 1 } ∷ [])
        s.pending_cb

  abbrev pub drained_trace : HrxStreamS → List HalCall → List HalCall
  drained_trace s t =
      if has_work s
      then command_buffer_release s.pending_cb ∷ submission s ∷ command_buffer_end s.pending_cb ∷ t
      else t

  -- IREE accepted the end of the pending command buffer and its submission.
  abbrev pub Accepted : HrxStreamS → List HalCall → Type 0
  Accepted s t =
      (has_work s ≡ false)
      ⊎ (((e.reply (command_buffer_end s.pending_cb ∷ t)).status ≡ none)
          × ((e.reply (submission s ∷ command_buffer_end s.pending_cb ∷ t)).status ≡ none))

  abbrev pub FlushOutcome :
      HrxStreamS → List HalCall → HrxStatus → HrxStreamS → List HalCall → Type 0
  FlushOutcome s t none s' t' = (s' ≡ drained s) × (t' ≡ drained_trace s t) × Accepted s t
  FlushOutcome s t (some p) s' t' = s' ≡ s

  -- The timeline is at its start, or the next call waited for the stream's timepoint with success.
  abbrev WaitedFor : HrxStreamS → List HalCall → List HalCall → Type 0
  WaitedFor s t t' =
      ((s.timepoint ≡ 0) × (t' ≡ t))
      ⊎ ((t' ≡ semaphore_wait (o.semaphore_hal s.semaphore) s.timepoint infinite ∷ t)
          × ((e.reply t').status ≡ none))

  abbrev pub Synchronized :
      HrxStreamS → List HalCall → HrxStatus → HrxStreamS → List HalCall → Type 0
  Synchronized s t none s' t' =
      (s' ≡ drained s) × Accepted s t × WaitedFor (drained s) (drained_trace s t) t'
  Synchronized s t (some p) s' t' = (s' ≡ s) ⊎ (s' ≡ drained s)

abbrev HasBuffer : HrxStatus → HrxStreamS → List HalCall → Type 0
HasBuffer none s t = s.pending_cb ≢ 0
HasBuffer (some p) s t = Unit {0}

-- The last two calls recorded the command and then the full barrier, both into the pending buffer.
abbrev pub Recorded : Command → HrxStatus → HrxStreamS → List HalCall → Type 0
Recorded c (some p) s t = Unit {0}
Recorded c none s (b ∷ r ∷ t) =
    (s.has_pending_work ≡ true)
    × (s.pending_cb ≢ 0)
    × (r ≡ record_command s.pending_cb c)
    × (b ≡ record_command s.pending_cb full_barrier)
Recorded c none s _ = ⊥

module _ (o : Objects) (e : Env HalCall) (rich : NeverOutOfMemory e) where
  -- A status made of a failed IREE call is not the status of success.
  pub from_iree-ne-none : (t : List HalCall) (c : ℕ) → hrx_status_from_iree e t (some c) ≢ none
  from_iree-ne-none t c eq = ground (arith, rich t, is_ok-from_iree e t c)

  pub make_status-ne-none :
      (t : List HalCall) (c : ℕ) (message : Option String)
      → hrx_make_status e t (suc c) message ≢ none
  unfolding hrx_make_status
  make_status-ne-none t c message eq = ground (arith, rich t)

  flush_outcome :
      (s : HrxStreamS) (t : List HalCall) → Ensures (FlushOutcome o e s t) (flush_inner o e s t)
  unfolding flush_inner
  flush_outcome s t = grind (arith, from_iree-ne-none)

  pub hrx_stream_flush-outcome :
      (stream : ℕ) (s : HrxStreamS) (t : List HalCall)
      → stream ≢ 0
      → Ensures (FlushOutcome o e s t) (hrx_stream_flush o stream e s t)
  unfolding hrx_stream_flush
  hrx_stream_flush-outcome stream s t h = ground (arith, flush_outcome s t)

  pub hrx_stream_synchronize-outcome :
      (stream : ℕ) (s : HrxStreamS) (t : List HalCall)
      → stream ≢ 0
      → Ensures (Synchronized o e s t) (hrx_stream_synchronize o stream e s t)
  unfolding hrx_stream_synchronize hrx_stream_flush hrx_stream_wait hrx_semaphore_wait to_timeout
  hrx_stream_synchronize-outcome stream s t h =
      grind (arith, flush_outcome s t, from_iree-ne-none, make_status-ne-none)

  -- Work is pending when it is marked as such and there is a command buffer. On a handle that is not NULL
  -- a flush that returns success has made no call and changed nothing when no work was pending; otherwise
  -- it has made exactly three calls: it ended the pending buffer, submitted it once, to wait for the
  -- stream's timepoint and to signal the next one, both accepted, and released it, and the stream is at
  -- that timepoint with nothing pending. A flush that returns an error leaves the stream as it was. A
  -- synchronization that returns success has made the same calls with the same effect, and then, unless
  -- the timeline is at its start, one unbounded wait for the new timepoint on the stream's semaphore,
  -- which succeeded; one that returns an error leaves the stream as it was or as a flush leaves it.
  -- Neither faults. Payload allocations must not fail.
  pub drained-outcome :
      (stream : ℕ) (s : HrxStreamS) (t : List HalCall)
      → stream ≢ 0
      → Ensures (FlushOutcome o e s t) (hrx_stream_flush o stream e s t)
        × Ensures (Synchronized o e s t) (hrx_stream_synchronize o stream e s t)
  drained-outcome stream s t h =
      (hrx_stream_flush-outcome stream s t h, hrx_stream_synchronize-outcome stream s t h)

  begin_cb-HasBuffer :
      (s : HrxStreamS) (t : List HalCall) → CreatesBuffers e → Ensures HasBuffer (begin_cb o e s t)
  unfolding begin_cb
  begin_cb-HasBuffer s t creates = grind (
    arith,
    from_iree-ne-none,
    creates (o.hal_device s.device) mode_one_shot 3 queue_affinity_any t,
  )

  record_ordered-Recorded :
      (c : Command) (s : HrxStreamS) (t : List HalCall)
      → s.pending_cb ≢ 0
      → Ensures (Recorded c) (record_ordered o c e s t)
  unfolding record_ordering_barrier
  record_ordered-Recorded c s t h = grind (arith, from_iree-ne-none)

  begun-Recorded :
      (c : Command) (s : HrxStreamS) (t : List HalCall)
      → CreatesBuffers e
      → Ensures (Recorded c) ((begin_cb o >>= λ b. check_hrx b (record_ordered o c)) e s t)
  begun-Recorded c s t creates =
      bind HasBuffer (Recorded c) (begin_cb o e s t) _ (begin_cb-HasBuffer s t creates)
        (λ b s' t' has. after b s' t' has)
    where
      after :
          (b : HrxStatus) (s' : HrxStreamS) (t' : List HalCall)
          → HasBuffer b s' t'
          → Ensures (Recorded c) (check_hrx b (record_ordered o c) e s' t')
      after none s' t' has = record_ordered-Recorded c s' t' has
      after (some p) s' t' has = tt

  abbrev range : ℕ → ℕ → ℕ → HalBufferRef
  range buffer offset length = record {
    buffer = o.buffer_hal buffer;
    offset = offset;
    length = length;
  }

  -- A fill, a copy or an update returns success only when the stream has a command buffer, is marked as
  -- having work, and its last two calls recorded the command with the caller's ranges and, right after
  -- it, the full barrier. It never faults. Payload allocations must not fail, the handles and pointers
  -- must not be NULL, and a successful creation must give a buffer.
  pub recording-Recorded :
      (stream a b p i j n k : ℕ) (s : HrxStreamS) (t : List HalCall)
      → CreatesBuffers e
      → stream ≢ 0
      → a ≢ 0
      → b ≢ 0
      → p ≢ 0
      → Ensures
          (Recorded (fill_buffer (range a i n) p k))
          (hrx_stream_fill_buffer o stream a i n p k e s t)
        × Ensures
            (Recorded (copy_buffer (range a i n) (range b j n)))
            (hrx_stream_copy_buffer o stream a i b j n e s t)
        × Ensures
            (Recorded (update_buffer p (range b j n)))
            (hrx_stream_update_buffer o stream p n b j e s t)
  unfolding hrx_stream_fill_buffer hrx_stream_copy_buffer hrx_stream_update_buffer
  recording-Recorded stream a b p i j n k s t creates h1 h2 h3 h4 = (
    ground (arith, begun-Recorded (fill_buffer (range a i n) p k) s t creates),
    ground (arith, begun-Recorded (copy_buffer (range a i n) (range b j n)) s t creates),
    ground (arith, begun-Recorded (update_buffer p (range b j n)) s t creates),
  )
