-- ===== src/Examples/QueueExamples.antt =====
-- crates/hrx-libhrx/src/queue_ops.rs on concrete submissions.
use hrx_system_rs.Base.{◌≡◌, refl, none, some, [], ◌∷◌, arith}
use hrx_system_rs.Ffi.{◌>>=◌}
use hrx_system_rs.Ffi.Ensures.{Ensures}
use hrx_system_rs.Ffi.Samples.{ok_env, fails_at}
use hrx_system_rs.Hal.Ledger.{open_buffers}
use hrx_system_rs.Hal.Samples.{sample_objects, entry}
use hrx_system_rs.Queue.{
  HrxSemaphoreList, fill_arrays, to_iree_sem_list, hrx_queue_fill, hrx_queue_copy,
  hrx_queue_host_call,
}
use hrx_system_rs.Queue.Lists.{to_iree_sem_list-exact}
use hrx_system_rs.Queue.Release.{Converts, transfer-closes}
use hrx_system_rs.Queue.HostCall.{deliver, live_blocks, host_call-deliver-frees}

abbrev no_state : Unit {0}
no_state = tt

abbrev waits : HrxSemaphoreList
waits = some (entry 1 5 ∷ entry 2 7 ∷ [])

abbrev no_signals : HrxSemaphoreList
no_signals = none

to_iree_sem_list-exact_example :
    to_iree_sem_list sample_objects waits ≡ some (entry 101 5 ∷ entry 102 7 ∷ [])
to_iree_sem_list-exact_example =
    to_iree_sem_list-exact sample_objects (entry 1 5 ∷ entry 2 7 ∷ []) (ground arith)

waits-Converts : Converts sample_objects waits
unfolding to_iree_sem_list fill_arrays
waits-Converts = (entry 101 5 ∷ entry 102 7 ∷ [], refl)

no_signals-Converts : Converts sample_objects no_signals
unfolding to_iree_sem_list fill_arrays
no_signals-Converts = ([], refl)

-- The third call, which records the command, fails.
transfer-closes_example :
    Ensures
      (λ _ _ t. open_buffers (fails_at 3) t ≡ some [])
      (hrx_queue_fill sample_objects 9 0 waits no_signals 4 0 16 5 8 (fails_at 3) no_state [])
    × Ensures
        (λ _ _ t. open_buffers (fails_at 3) t ≡ some [])
        (hrx_queue_copy sample_objects 9 0 waits no_signals 4 0 5 0 16 (fails_at 3) no_state [])
transfer-closes_example =
    transfer-closes sample_objects (fails_at 3) no_state [] waits no_signals waits-Converts
      no_signals-Converts [] refl 9 0 4 0 5 0 16 8

host_call-deliver-frees_example :
    Ensures
      (λ _ _ t. live_blocks ok_env t ≡ some [])
      ((hrx_queue_host_call sample_objects 9 0 waits no_signals 6 >>= λ _. deliver none) ok_env
        no_state [])
host_call-deliver-frees_example =
    host_call-deliver-frees sample_objects ok_env no_state [] waits no_signals 9 0 6 none []
      waits-Converts no_signals-Converts refl refl
