-- ===== src/Examples/HipExamples.antt =====
-- crates/hip-intercept/src/lib.rs and crates/hip-logging/src/lib.rs on concrete calls.
use hrx_system_rs.Base.{ℕ, ◌≡◌, refl, none, some, List, [], ◌∷◌, suc, length, arith, false}
use hrx_system_rs.Ffi.{Env, done, fault}
use hrx_system_rs.Ffi.Ensures.{Ensures}
use hrx_system_rs.Hip.{
  error_kind, HipFunction, hip_init, hip_module_unload, hip_get_device_properties,
  hip_get_last_error, error,
}
use hrx_system_rs.Hip.Process.{ProcessCall, Process, new_process}
use hrx_system_rs.Hip.Logging.Entry.{wrapper_table}
use hrx_system_rs.Hip.Logging.Messages.{Memory}
use hrx_system_rs.Hip.Logging.Text.{codes}
use hrx_system_rs.Hip.Intercept.{Interceptor, hip_logging, Variables, call_slot, zeroed}
use hrx_system_rs.Hip.Intercept.Client.{
  HipOp, hip, outside_table, get_real_table, get_active_table, run,
}
use hrx_system_rs.Hip.Intercept.Loading.{FindsAll}
use hrx_system_rs.Hip.Intercept.Routing.{replies, Routed}
use hrx_system_rs.Hip.Intercept.Transparent.{asked, calls_of, run-Transparent}
use hrx_system_rs.Hip.Intercept.Missing.{call_slot-missing}

-- Every library opens, every name is found, and every function answers how many calls were made.
abbrev process_env : Env ProcessCall
process_env = record {
  reply = λ t. record { status = none; ptr = suc (length t); num = length t };
  malloc_fails = λ t. false;
  dup = λ t s. some s;
  describe = λ t c. none;
}

abbrev variables : Variables
variables = record {
  hip_passthrough_backend_lib = none;
  hip_interception_library = some (codes "libhip_logging.so");
  hip_log_file = some (codes "hip.log");
  hip_log_level = none;
}

abbrev which : ℕ → Interceptor
which l = hip_logging

abbrev no_memory : List ProcessCall → Memory
no_memory t = record { int = λ p. 0; word = λ p. 0; text = λ p. []; millis = λ p. [] }

abbrev hip_calls : List HipOp
hip_calls =
    hip (hip_init 0)
    ∷ get_active_table
    ∷ hip (hip_get_device_properties 5 0)
    ∷ hip (hip_module_unload 6)
    ∷ outside_table
        (record { name = "hipMallocAsync"; kind = error_kind; arguments = 1 ∷ 2 ∷ 3 ∷ [] })
    ∷ hip hip_get_last_error
    ∷ get_real_table
    ∷ []

process_env-FindsAll : FindsAll process_env
process_env-FindsAll = record {
  slots = λ lib f t. ground arith;
  others = λ lib name t. ground arith;
}

run-Transparent_example :
    Ensures
      (λ h s t.
        (replies process_env t ≡ h) × (calls_of h ≡ asked hip_calls []) × Routed process_env t)
      (run variables which no_memory hip_calls [] process_env new_process [])
run-Transparent_example =
    run-Transparent variables which no_memory process_env hip_calls (λ path t. ground arith)
      process_env-FindsAll (λ l. tt)

-- The real table of a backend without any function, and the interceptor initialized with it.
abbrev bare_process : Process
bare_process = record new_process { log_real = some zeroed }

call_slot-missing_example :
    (call_slot variables which no_memory
        (zeroed HipFunction.hip_init)
        (hip_init 0)
        process_env
        bare_process
        []
      ≡ done (error 0) bare_process [])
    × (call_slot variables which no_memory
          (wrapper_table zeroed HipFunction.hip_init)
          (hip_init 0)
          process_env
          bare_process
          []
        ≡ fault)
call_slot-missing_example =
    call_slot-missing process_env no_memory bare_process zeroed refl variables which (hip_init 0) []
      refl refl
