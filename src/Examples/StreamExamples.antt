-- ===== src/Examples/StreamExamples.antt =====
-- crates/hrx-libhrx/src/stream.rs on concrete sequences of calls.
use hrx_system_rs.Base.{ℕ, ◌≤◌, ◌≡◌, refl, false, true, some, List, [], ◌∷◌, arith}
use hrx_system_rs.Ffi.{◌>>=◌}
use hrx_system_rs.Ffi.Ensures.{Ensures}
use hrx_system_rs.Ffi.Samples.{ok_env, fails_at}
use hrx_system_rs.Hal.{HalBufferRef, fill_buffer, copy_buffer, update_buffer}
use hrx_system_rs.Hal.Ledger.{open_buffers, CreatesBuffers}
use hrx_system_rs.Hal.Samples.{sample_objects}
use hrx_system_rs.Stream.{HrxStreamS, new_stream, drop_stream}
use hrx_system_rs.Stream.Timeline.{hrx_stream_flush, hrx_stream_synchronize, hrx_stream_wait_on}
use hrx_system_rs.Stream.Recording.{
  hrx_stream_fill_buffer, hrx_stream_copy_buffer, hrx_stream_update_buffer,
}
use hrx_system_rs.Stream.Client.{StreamCall, flush, advance, fill, copy, wait_on, run}
use hrx_system_rs.Stream.Ownership.{run-drop_stream-closes}
use hrx_system_rs.Stream.Order.{Ordered, latest, Overtakes, run-Ordered, wait_on_uncovered}
use hrx_system_rs.Stream.Outcome.{
  FlushOutcome, Synchronized, Recorded, drained-outcome, recording-Recorded,
}

abbrev calls : List StreamCall
calls =
    fill 7 3 0 64 9 4
    ∷ copy 7 3 0 4 0 64
    ∷ flush 7
    ∷ advance 7 1
    ∷ wait_on 7 (record { semaphore = 5; value = 2 })
    ∷ fill 7 3 0 64 9 4
    ∷ []

fails_at-CreatesBuffers : CreatesBuffers (fails_at 3)
fails_at-CreatesBuffers device mode categories affinity t ok = ground arith

-- The third call fails.
run-drop_stream-closes_example :
    Ensures
      (λ _ _ t. open_buffers (fails_at 3) t ≡ some [])
      ((run sample_objects calls >>= λ _. drop_stream sample_objects)
        (fails_at 3)
        (new_stream 9 0 8)
        [])
run-drop_stream-closes_example =
    run-drop_stream-closes sample_objects (fails_at 3) fails_at-CreatesBuffers 9 0 8 calls [] refl

run-Ordered_example :
    Ensures
      (λ _ s t. Ordered 108 ok_env t × (latest ok_env t ≤ s.timepoint))
      (run sample_objects calls ok_env (new_stream 9 0 8) [])
run-Ordered_example = run-Ordered sample_objects 108 ok_env 9 0 8 calls refl (ground arith)

abbrev working : HrxStreamS
working = record {
  timepoint = 4;
  pending_cb = 2;
  has_pending_work = true;
  flags = 0;
  semaphore = 8;
  device = 9;
}

abbrev flushed : HrxStreamS
flushed = record working { pending_cb = 0; has_pending_work = false }

drained-outcome_example :
    Ensures
      (FlushOutcome sample_objects (fails_at 2) working [])
      (hrx_stream_flush sample_objects 7 (fails_at 2) working [])
    × Ensures
        (Synchronized sample_objects (fails_at 2) working [])
        (hrx_stream_synchronize sample_objects 7 (fails_at 2) working [])
drained-outcome_example =
    drained-outcome sample_objects (fails_at 2) (λ t. refl) 7 working [] (ground arith)

abbrev whole : ℕ → HalBufferRef
whole buffer = record { buffer = buffer; offset = 0; length = 64 }

recording-Recorded_example :
    Ensures
      (Recorded (fill_buffer (whole 103) 9 4))
      (hrx_stream_fill_buffer sample_objects 7 3 0 64 9 4 (fails_at 3) flushed [])
    × Ensures
        (Recorded (copy_buffer (whole 103) (whole 104)))
        (hrx_stream_copy_buffer sample_objects 7 3 0 4 0 64 (fails_at 3) flushed [])
    × Ensures
        (Recorded (update_buffer 9 (whole 104)))
        (hrx_stream_update_buffer sample_objects 7 9 64 4 0 (fails_at 3) flushed [])
recording-Recorded_example =
    recording-Recorded sample_objects (fails_at 3) (λ t. refl) 7 3 4 9 0 0 64 4 flushed []
      fails_at-CreatesBuffers (ground arith) (ground arith) (ground arith) (ground arith)

wait_on_uncovered_example :
    Ensures
      (λ _ _ t. Overtakes 108 flushed.timepoint t)
      (hrx_stream_wait_on sample_objects 7 (record { semaphore = 5; value = 2 }) ok_env flushed [])
wait_on_uncovered_example =
    wait_on_uncovered sample_objects ok_env 7 (record { semaphore = 5; value = 2 }) flushed []
      (ground arith) (ground arith) refl (ground arith) (ground arith)
