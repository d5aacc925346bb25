-- ===== src/Examples/ObjectsExamples.antt =====
-- crates/hrx-libhrx/src: buffer_view.rs, executable.rs and module.rs on concrete calls.
use hrx_system_rs.Base.{
  ℕ, ◌+◌, ◌≡◌, refl, none, some, List, [], ◌∷◌, length, arith, pos, replicate, true, false,
}
use hrx_system_rs.Ffi.{Env, Reply, done, fault}
use hrx_system_rs.Status.{
  hrx_status_code, hrx_status_from_iree, hrx_make_status, hrx_code_from_iree,
}
use hrx_system_rs.Ffi.Ensures.{Ensures}
use hrx_system_rs.Ffi.Kinds.{held}
use hrx_system_rs.Ffi.Samples.{ok_env, fails_at}
use hrx_system_rs.Runtime.{SharedState}
use hrx_system_rs.Objects.{ObjectCall, buffer_view_create, seek_end, seek_start, prepare_executable}
use hrx_system_rs.Objects.BufferView.{hrx_buffer_view_create}
use hrx_system_rs.Objects.BufferView.Convert.{unsigned}
use hrx_system_rs.Objects.BufferView.Creation.{Asks, hrx_buffer_view_create-Asks}
use hrx_system_rs.Objects.Executable.{hrx_executable_load_data}
use hrx_system_rs.Objects.Executable.LoadFile.{load_and_free, read_file, hrx_executable_load_file}
use hrx_system_rs.Objects.Executable.Loading.{
  Holds, MakesExecutables, hrx_executable_load_file-Holds,
}
use hrx_system_rs.Objects.Module.{HrxModuleS, hrx_module_load_vmfb}
use hrx_system_rs.Objects.Module.Loading.{
  vm_modules, contexts, group_refs, device_refs, modules_of, contexts_of, devices_of, MakesModules,
  hrx_module_load_vmfb-held,
}
use hrx_system_rs.Objects.Module.Client.{
  ModuleOp, retain, release, lookup_function, function_retain, function_release, invoke, run,
}
use hrx_system_rs.Objects.Module.Lifetime.{Lives, run-new_module-Lives}

abbrev no_state : Unit {0}
no_state = tt

-- Nine dimensions, one more than fit the array on the stack.
hrx_buffer_view_create-Asks_example :
    Ensures
      (λ r _ t'.
        Asks ok_env []
          (λ rank shape. buffer_view_create 103 rank shape 5 1)
          9
          (unsigned (replicate 9 (pos 2)))
          r
          t')
      (hrx_buffer_view_create
        (λ b. b + 100)
        3
        9
        (record { ptr = 8; dims = replicate 9 (pos 2) })
        5
        1
        4
        ok_env
        no_state
        [])
hrx_buffer_view_create-Asks_example =
    hrx_buffer_view_create-Asks (λ b. b + 100) ok_env no_state [] 3 8 5 1 4 (replicate 9 (pos 2))
      (ground arith) (ground arith) (ground arith) refl (λ rank shape ok. ground arith)

fails_at-MakesModules : (n : ℕ) → MakesModules (fails_at n)
fails_at-MakesModules n c t ok = ground arith

-- A file of 64 bytes, from which no executable can be prepared.
abbrev file_reply : ObjectCall → ℕ → Reply
file_reply (seek_end f) n = record { status = none; ptr = 0; num = 0 }
file_reply (seek_start f) n = record { status = none; ptr = 0; num = 0 }
file_reply (prepare_executable c p) n = record { status = some 8; ptr = 0; num = 0 }
file_reply _ n = record { status = none; ptr = n; num = 64 }

abbrev reply_of : List ObjectCall → Reply
reply_of [] = record { status = none; ptr = 0; num = 0 }
reply_of (c ∷ t) = file_reply c (length (c ∷ t))

abbrev file_env : Env ObjectCall
file_env = record {
  reply = reply_of;
  malloc_fails = λ t. false;
  dup = λ t s. some s;
  describe = λ t c. none;
}

file_env-MakesExecutables : MakesExecutables file_env
file_env-MakesExecutables c t ok = ground arith

hrx_executable_load_file-Holds_example :
    Ensures
      (λ made _ t'. Holds file_env [] [] [] [] made.1 t')
      (hrx_executable_load_file
        (λ d. d)
        3
        (record { ptr = 1; text = 102 ∷ [] })
        (record { ptr = 2; text = 104 ∷ [] })
        4
        file_env
        no_state
        [])
hrx_executable_load_file-Holds_example =
    hrx_executable_load_file-Holds (λ d. d) file_env no_state 3
      (record { ptr = 2; text = 104 ∷ [] }) 4 file_env-MakesExecutables [] [] [] [] (λ t. refl)
      (record { ptr = 1; text = 102 ∷ [] }) []
      (record {
        same_caches = refl;
        same_executables = refl;
        same_files = refl;
        same_memory = refl;
      })

-- The state of the load, and the status that it ends with.
load_file_code :
    elim (hrx_executable_load_file
      (λ d. d)
      3
      (record { ptr = 1; text = 102 ∷ [] })
      (record { ptr = 2; text = 104 ∷ [] })
      4
      file_env
      no_state
      []) [ done made s t ↦ hrx_status_code made.0 | fault ↦ 0 ]
    ≡ 8
unfolding hrx_executable_load_file read_file load_and_free hrx_executable_load_data
    hrx_status_from_iree hrx_make_status hrx_status_code hrx_code_from_iree
load_file_code = refl

abbrev shared_state : SharedState
shared_state = record { vm_instance = 1; proactor_pool = 2; init_count = 1; initialized = true }

-- The context cannot be created.
hrx_module_load_vmfb-held_example :
    Ensures
      (λ made _ t'.
        (held vm_modules (fails_at 5) t' ≡ some (modules_of made.1 []))
        × (held contexts (fails_at 5) t' ≡ some (contexts_of made.1 []))
        × (held group_refs (fails_at 5) t' ≡ some [])
        × (held device_refs (fails_at 5) t' ≡ some (devices_of made.1 [])))
      (hrx_module_load_vmfb shared_state (λ d. d + 50) 3 7 64 4 (fails_at 5) no_state [])
hrx_module_load_vmfb-held_example =
    hrx_module_load_vmfb-held shared_state (λ d. d + 50) (fails_at 5) no_state [] 3 7 64 4 [] [] []
      [] (fails_at-MakesModules 5) refl refl refl refl

abbrev sample_module : HrxModuleS
sample_module = record { device = 3; context = 4; hal_module = 5; bytecode_module = 6 }

-- The function keeps the module alive after its handle is given back.
abbrev module_calls : List ModuleOp
module_calls =
    retain
    ∷ lookup_function 1 (109 ∷ []) 2
    ∷ release
    ∷ release
    ∷ invoke 9 0 7 8
    ∷ function_retain 0
    ∷ function_release 0
    ∷ function_release 0
    ∷ invoke 9 0 7 8
    ∷ []

run-new_module-Lives_example :
    Ensures
      (λ n s t. Lives sample_module n s t)
      (run
        (λ l. l)
        module_calls
        1
        ok_env
        (record { address = 9; strong = 1; inner = sample_module; functions = [] })
        [])
run-new_module-Lives_example = run-new_module-Lives ok_env (λ l. l) 9 sample_module module_calls
