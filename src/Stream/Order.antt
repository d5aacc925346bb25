-- ===== src/Stream/Order.antt =====
-- crates/hrx-libhrx/src/stream.rs: what the submissions of a stream wait for and signal.
use hrx_system_rs.Base.{
  ℕ, ◌+◌, ◌*◌, ◌^◌, ◌≤◌, ◌<◌, ◌≡◌, ◌≢◌, false, none, some, List, [], ◌∷◌, arith, length,
}
use hrx_system_rs.Ffi.{Env, IreeStatus}
use hrx_system_rs.Ffi.Ensures.{Ensures, bind, mono}
use hrx_system_rs.Hal.{HalCall, Objects, SemaphoreValue, queue_execute, queue_barrier, queue_alloca}
use hrx_system_rs.Semaphore.{hrx_semaphore_wait, hrx_semaphore_query}
use hrx_system_rs.Stream.{
  HrxStreamS, HrxTimelinePoint, new_stream, S, begin_cb, flush_inner, record_ordering_barrier,
}
use hrx_system_rs.Stream.Timeline.{
  hrx_stream_flush, hrx_stream_wait, hrx_stream_synchronize, hrx_stream_query,
  hrx_stream_get_timeline_position, hrx_stream_get_semaphore, hrx_stream_get_device,
  hrx_stream_advance_timeline, hrx_stream_wait_on,
}
use hrx_system_rs.Stream.Recording.{
  hrx_stream_fill_buffer, hrx_stream_copy_buffer, hrx_stream_update_buffer,
  hrx_stream_execution_barrier, hrx_stream_dispatch,
}
use hrx_system_rs.Stream.Client.{
  StreamCall, flush, wait, synchronize, execution_barrier, query, position, advance, get_semaphore,
  get_device, wait_on, fill, copy, update, dispatch, step, run,
}

abbrev signals : HalCall → List SemaphoreValue
signals (queue_execute device affinity waits sigs cb) = sigs
signals (queue_barrier device affinity waits sigs) = sigs
signals (queue_alloca device affinity waits sigs pool params size) = sigs
signals _ = []

abbrev last_of : List SemaphoreValue → ℕ → ℕ
last_of [] n = n
last_of (x ∷ xs) n = x.value

abbrev if_accepted : IreeStatus → ℕ → ℕ → ℕ
if_accepted none n m = n
if_accepted (some c) n m = m

-- The value that the newest accepted submission signals, 0 before the first one.
abbrev pub latest : Env HalCall → List HalCall → ℕ
latest e [] = 0
latest e (c ∷ t) =
    if_accepted (e.reply (c ∷ t)).status (last_of (signals c) (latest e t)) (latest e t)

abbrev Signals : ℕ → ℕ → List SemaphoreValue → Type 0
Signals sem n [] = ⊥
Signals sem n (x ∷ xs) = (x.semaphore ≡ sem) × (n < x.value)

abbrev Covers : ℕ → ℕ → List SemaphoreValue → Type 0
Covers sem n [] = n ≡ 0
Covers sem n (x ∷ xs) = (x.semaphore ≡ sem) × (n ≤ x.value)

abbrev InOrder : ℕ → HalCall → ℕ → Type 0
InOrder sem (queue_execute device affinity waits sigs cb) n =
    Covers sem n waits × Signals sem n sigs
InOrder sem (queue_barrier device affinity waits sigs) n = Signals sem n sigs
InOrder sem (queue_alloca device affinity waits sigs pool params size) n =
    Covers sem n waits × Signals sem n sigs
InOrder sem _ n = Unit {0}

-- Each submission signals a value above all that earlier accepted ones signal, and a command buffer
-- also waits for the newest of those, on the stream's own semaphore.
abbrev pub Ordered : ℕ → Env HalCall → List HalCall → Type 0
Ordered sem e [] = Unit {0}
Ordered sem e (c ∷ t) = InOrder sem c (latest e t) × Ordered sem e t

pub record OnTime (o : Objects) (sem : ℕ) (e : Env HalCall) (s : HrxStreamS) (t : List HalCall)
    : Type 0 where
  pub own : o.semaphore_hal s.semaphore ≡ sem
  pub reached : latest e t ≤ s.timepoint
  pub ordered : Ordered sem e t

module _ (o : Objects) (sem : ℕ) (e : Env HalCall) where
  abbrev pub Within : ℕ → ℕ → {A : Type 0} → A → HrxStreamS → List HalCall → Type 0
  Within lo k _ s t = OnTime o sem e s t × (lo ≤ s.timepoint) × (s.timepoint ≤ lo + k)

  -- A step that keeps the order, and moves the timeline on by k at most.
  abbrev pub Moves : ℕ → {A : Type 0} → S A → Type 0
  Moves k m =
      (s : HrxStreamS) (t : List HalCall)
      → OnTime o sem e s t
      → s.timepoint + k < 2 ^ 64
      → Ensures (Within s.timepoint k) (m e s t)

  begin_cb-Moves : Moves 0 (begin_cb o)
  unfolding begin_cb
  begin_cb-Moves s t on room = ground arith

  flush_inner-Moves : Moves 1 (flush_inner o)
  unfolding flush_inner
  flush_inner-Moves s t on room = ground arith

  step-Moves : (c : StreamCall) → Moves 2 (step o c)
  unfolding step hrx_stream_flush hrx_stream_wait hrx_stream_synchronize hrx_stream_query
      hrx_stream_get_timeline_position hrx_stream_get_semaphore hrx_stream_get_device
      hrx_stream_advance_timeline hrx_stream_wait_on hrx_semaphore_wait hrx_semaphore_query
      hrx_stream_execution_barrier hrx_stream_fill_buffer hrx_stream_copy_buffer
      hrx_stream_update_buffer hrx_stream_dispatch record_ordering_barrier
  step-Moves (flush p) s t on room = ground (arith, flush_inner-Moves s t on)
  step-Moves (wait p) s t on room = ground arith
  step-Moves (synchronize p) s t on room = ground (arith, flush_inner-Moves s t on)
  step-Moves (query p q) s t on room = ground arith
  step-Moves (position p q) s t on room = ground arith
  step-Moves (get_semaphore p q) s t on room = ground arith
  step-Moves (get_device p q) s t on room = ground arith
  step-Moves (advance p q) s t on room = ground arith
  step-Moves (wait_on p q) s t on room = ground (arith, flush_inner-Moves s t on)
  step-Moves (execution_barrier p) s t on room = ground (arith, begin_cb-Moves s t on)
  step-Moves (fill p b i n q k) s t on room = ground (arith, begin_cb-Moves s t on)
  step-Moves (copy p a i b j n) s t on room = ground (arith, begin_cb-Moves s t on)
  step-Moves (update p q n b i) s t on room = ground (arith, begin_cb-Moves s t on)
  step-Moves (dispatch p x i c k b f) s t on room = ground (arith, begin_cb-Moves s t on)

  run-Moves : (cs : List StreamCall) → Moves (2 * length cs) (run o cs)
  unfolding run
  run-Moves [] s t on room = (on, omega arith, omega arith)
  run-Moves (c ∷ cs) s t on room =
      bind (Within s.timepoint 2) (Within s.timepoint (2 * length (c ∷ cs))) (step o c e s t) _
        (step-Moves c s t on (omega arith))
        (λ _ s' t' w.
          mono (Within s'.timepoint (2 * length cs)) (Within s.timepoint (2 * length (c ∷ cs))) _
            (run-Moves cs s' t' w.0 (omega arith))
            (λ _ s'' t'' w'. (w'.0, omega arith, omega arith)))

  -- A new stream serves any sequence of calls, with fewer than 2^63 of them, without a fault. Every
  -- submission that it then has made signals its semaphore with a value above all values that the
  -- accepted submissions before it signal, every command buffer also waits for the newest of those
  -- values, and the stream's timepoint is at least the newest one. It holds for every answer of IREE.
  pub run-Ordered :
      (device flags semaphore : ℕ) (cs : List StreamCall)
      → o.semaphore_hal semaphore ≡ sem
      → 2 * length cs < 2 ^ 64
      → Ensures
          (λ _ s' t'. Ordered sem e t' × (latest e t' ≤ s'.timepoint))
          (run o cs e (new_stream device flags semaphore) [])
  run-Ordered device flags semaphore cs own room =
      mono (Within 0 (2 * length cs)) (λ _ s' t'. Ordered sem e t' × (latest e t' ≤ s'.timepoint)) _
        (run-Moves cs _ _ (record { own = own; reached = omega arith; ordered = tt }) (omega arith))
        (λ _ s' t' w. (w.0.ordered, w.0.reached))

abbrev WaitsElsewhere : ℕ → List SemaphoreValue → Type 0
WaitsElsewhere sem [] = Unit {0}
WaitsElsewhere sem (x ∷ xs) = (x.semaphore ≢ sem) × WaitsElsewhere sem xs

-- The last call is a barrier that signals the value after n on the semaphore and waits for no value of it.
abbrev pub Overtakes : ℕ → ℕ → List HalCall → Type 0
Overtakes sem n [] = ⊥
Overtakes sem n (queue_barrier device affinity waits sigs ∷ t) =
    (sigs ≡ record { semaphore = sem; value = n + 1 } ∷ []) × WaitsElsewhere sem waits
Overtakes sem n (_ ∷ t) = ⊥

-- `hrx_stream_wait_on` on a stream with nothing pending and with another semaphore's position
-- submits a barrier that signals exactly the next value of the stream's own timeline and waits for no
-- value of it, so IREE may signal it before the work submitted earlier has finished. The handles are
-- not NULL, the two IREE semaphores differ, and the timepoint is below 2^64 - 1.
pub wait_on_uncovered :
    (o : Objects) (e : Env HalCall) (stream : ℕ) (point : HrxTimelinePoint) (s : HrxStreamS)
    (t : List HalCall)
    → stream ≢ 0
    → point.semaphore ≢ 0
    → s.has_pending_work ≡ false
    → o.semaphore_hal point.semaphore ≢ o.semaphore_hal s.semaphore
    → s.timepoint + 1 < 2 ^ 64
    → Ensures
        (λ _ _ t'. Overtakes (o.semaphore_hal s.semaphore) s.timepoint t')
        (hrx_stream_wait_on o stream point e s t)
unfolding hrx_stream_wait_on hrx_stream_flush flush_inner
wait_on_uncovered o e stream point s t h1 h2 h3 h4 h5 = ground arith
