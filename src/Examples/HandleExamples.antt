-- ===== src/Examples/HandleExamples.antt =====
-- crates/hrx-libhrx/src/handle.rs with the semaphore of semaphore.rs and the executable of executable.rs.
use hrx_system_rs.Base.{◌≡◌, refl, none, List, [], ◌∷◌}
use hrx_system_rs.Ffi.Ensures.{Ensures}
use hrx_system_rs.Ffi.Samples.{ok_env}
use hrx_system_rs.Hal.{HalCall, semaphore_signal}
use hrx_system_rs.Handle.{into_handle}
use hrx_system_rs.Handle.Client.{HandleOp, retain, release, use_, run}
use hrx_system_rs.Handle.Lifetime.{uses, Ends, run-into_handle-Ends}
use hrx_system_rs.Handle.Objects.{HrxSemaphoreS, semaphore_drops}

abbrev sample_semaphore : HrxSemaphoreS
sample_semaphore = record { hal = 7; device = 8 }

abbrev signal : HrxSemaphoreS → HalCall
signal s = semaphore_signal s.hal 3

abbrev handle_calls : List (HandleOp HalCall HrxSemaphoreS)
handle_calls = retain ∷ use_ signal ∷ release ∷ use_ signal ∷ release ∷ []

run-into_handle-Ends_example :
    Ensures
      (λ moved s t.
        (s.strong ≡ 0)
        × Ends sample_semaphore semaphore_drops 0 (uses sample_semaphore handle_calls []) moved t)
      (run semaphore_drops handle_calls none ok_env (into_handle sample_semaphore) [])
run-into_handle-Ends_example =
    run-into_handle-Ends semaphore_drops ok_env sample_semaphore handle_calls 0 refl
