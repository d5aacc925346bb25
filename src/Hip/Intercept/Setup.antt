-- ===== src/Hip/Intercept/Setup.antt =====
-- Lemmas on `intercept_init` of crates/hip-intercept/src/lib.rs with hip-logging or hip-noop, and on
-- `hip_interceptor_init` of crates/hip-logging/src/lib.rs.
use hrx_system_rs.Base.{
  ℕ, ◌≡◌, refl, ◌∙◌, ap, ◌⊎◌, inl, inr, false, Bool-cases, Option, none, some, List, ◌∷◌,
}
use hrx_system_rs.Ffi.{Env, done}
use hrx_system_rs.Ffi.Ensures.{Ensures, bind, mono}
use hrx_system_rs.Hal.{is_null}
use hrx_system_rs.Tracer.Text.{Str, is_empty}
use hrx_system_rs.Hip.Table.{all_functions}
use hrx_system_rs.Hip.Process.{
  ProcessCall, Symbol, dlopen_global, dlopen_local, dlsym, fopen, fdopen_stderr, eprint, Slots,
  Process,
}
use hrx_system_rs.Hip.Logging.{log_msg}
use hrx_system_rs.Hip.Logging.Entry.{
  open_log, log_level, init_line, set_log, wrapper_table, hip_interceptor_init,
}
use hrx_system_rs.Hip.Logging.Messages.{Memory}
use hrx_system_rs.Hip.Noop as noop
use hrx_system_rs.Hip.Intercept.{
  Interceptor, hip_logging, hip_noop, hip_buffer_tracer, foreign, Variables, init_found,
  init_interceptor, load_interceptor, intercept_init, load_all, zeroed, backend_path,
}
use hrx_system_rs.Hip.Intercept.Client.{History}
use hrx_system_rs.Hip.Intercept.Routing.{
  Real, Logs, Keeps, quiet-Logs, more-Real, log_msg-Keeps, IsQuiet,
}
use hrx_system_rs.Hip.Intercept.Loading.{FindsAll, load_all-Part, Part-Real, zeroed-Part}

-- The real table is active, or the wrappers of hip-logging around it.
abbrev pub TableOf : Slots → Process → Type 0
TableOf real s =
    (s.active_table ≡ some real)
    ⊎ ((s.active_table ≡ some (wrapper_table real)) × (s.log_real ≡ some real))

-- The same, with the backend open.
abbrev pub Active : Slots → Process → Type 0
Active real s = (is_null s.backend_lib ≡ false) × TableOf real s

-- The interceptor is hip-logging or hip-noop.
abbrev pub IsLoggingOrNoop : Interceptor → Type 0
IsLoggingOrNoop (hip_buffer_tracer table) = ⊥
IsLoggingOrNoop (foreign table) = ⊥
IsLoggingOrNoop _ = Unit {0}

module _ (e : Env ProcessCall) where
  abbrev Kept : Slots → History → List ProcessCall → Type 0
  Kept real h t = Real e real t × Logs e h t

  quiet-Kept :
      (c : ProcessCall) (real : Slots) (h : History) (t : List ProcessCall)
      → IsQuiet c
      → Kept real h t
      → Kept real h (c ∷ t)
  quiet-Kept c real h t q k = (more-Real e c real t k.0, quiet-Logs e c h t q k.1)

  same_state :
      (s : Process) (real : Slots) (h : History) (t : List ProcessCall)
      → Kept real h t
      → (s ≡ s) × Real e real t × Logs e h t
  same_state s real h t k = (refl, k.0, k.1)

  open_log-Keeps :
      (path : Option Str) (s : Process) (real : Slots) (h : History) (t : List ProcessCall)
      → Kept real h t
      → Ensures (Keeps e s real h) (open_log path e s t)
  open_log-Keeps none s real h t k = same_state s real h _ (quiet-Kept fdopen_stderr real h t tt k)
  open_log-Keeps (some path) s real h t k = elim (Bool-cases (is_empty path)) [
    | inl empty ↦ rw empty (same_state s real h _ (quiet-Kept fdopen_stderr real h t tt k))
    | inr named ↦ rw named (elim (Bool-cases (is_null (e.reply (fopen path ∷ t)).ptr)) [
      | inl failed ↦ rw failed (
          same_state s real h _ (
            quiet-Kept fdopen_stderr real h _ tt
              (quiet-Kept (eprint _) real h _ tt (quiet-Kept (fopen path) real h t tt k))))
      | inr opened ↦ rw opened (same_state s real h _ (quiet-Kept (fopen path) real h t tt k))
    ])
  ]

  abbrev Initialized : Slots → History → ℕ → Slots → Process → List ProcessCall → Type 0
  Initialized real h lib table s t =
      (s.backend_lib ≡ lib)
      × (table ≡ wrapper_table real)
      × (s.log_real ≡ some real)
      × Kept real h t

  hip_interceptor_init-Initialized :
      (file level : Option Str) (s : Process) (real : Slots) (h : History) (t : List ProcessCall)
      → Kept real h t
      → Ensures (Initialized real h s.backend_lib) (hip_interceptor_init real file level e s t)
  unfolding hip_interceptor_init
  hip_interceptor_init-Initialized file level s real h t k =
      let s1 = record s { log_real = some real } in
      bind (Keeps e s1 real h) (Initialized real h s.backend_lib) (open_log file e s1 t) _
        (open_log-Keeps file s1 real h t k)
        λ f s2 t2 k2.
          let s3 = set_log (record { file = f.0; level = log_level level; owns_file = f.1 }) s2 in
          bind (Keeps e s3 real h) (Initialized real h s.backend_lib)
            (log_msg 1 (init_line (log_level level)) e s3 t2)
            (λ u s4 t4. done (wrapper_table real) s4 t4)
            (log_msg-Keeps e 1 (init_line (log_level level)) s3 real h t2 k2.1 k2.2)
            λ u s4 t4 k4. (
              ap (λ s. s.backend_lib) k4.0 ∙ ap (λ s. s.backend_lib) k2.0,
              refl,
              ap (λ s. s.log_real) (k4.0) ∙ ap (λ s. s.log_real) k2.0,
              (k4.1, k4.2),
            )

  module _ (v : Variables) (which : ℕ → Interceptor) (memory : List ProcessCall → Memory) where
    abbrev Started : Slots → History → {A : Type 0} → A → Process → List ProcessCall → Type 0
    Started real h a s t = Active real s × Kept real h t

    init_interceptor-Started :
        (i : Interceptor) (f : ℕ) (s : Process) (real : Slots) (h : History) (t : List ProcessCall)
        → IsLoggingOrNoop i
        → Active real s
        → Kept real h t
        → Ensures (Started real h) (init_interceptor v which memory i f real e s t)
    unfolding init_interceptor noop.hip_interceptor_init
    init_interceptor-Started hip_logging f s real h t ours active k =
        bind (Initialized real h s.backend_lib) (Started real h)
          (hip_interceptor_init real v.hip_log_file v.hip_log_level e s t) _
          (hip_interceptor_init-Initialized v.hip_log_file v.hip_log_level s real h t k)
          λ table s' t' done. ((ap is_null done.0 ∙ active.0, inr (ap some done.1, done.2)), done.3)
    init_interceptor-Started hip_noop f s real h t ours active k = (active, k)
    init_interceptor-Started (hip_buffer_tracer table) f s real h t ours active k = absurd ours
    init_interceptor-Started (foreign table) f s real h t ours active k = absurd ours

    init_found-Started :
        (i : Interceptor) (f : ℕ) (s : Process) (real : Slots) (h : History) (t : List ProcessCall)
        → IsLoggingOrNoop i
        → Active real s
        → Kept real h t
        → Ensures (Started real h) (init_found v which memory i f real e s t)
    init_found-Started i f s real h t ours active k = elim (Bool-cases (is_null f)) [
      | inl missing ↦ rw missing (active, k)
      | inr there ↦ rw there (init_interceptor-Started i f s real h t ours active k)
    ]

    load_interceptor-Started :
        (path : Option Str) (s : Process) (real : Slots) (h : History) (t : List ProcessCall)
        → ((l : ℕ) → IsLoggingOrNoop (which l))
        → Active real s
        → Kept real h t
        → Ensures (Started real h) (load_interceptor v which memory real path e s t)
    unfolding load_interceptor
    load_interceptor-Started none s real h t ours active k = (active, k)
    load_interceptor-Started (some path) s real h t ours active k =
        elim (Bool-cases (is_empty path)) [
          | inl empty ↦ rw empty (active, k)
          | inr named ↦
              let opened : ProcessCall = dlopen_local path in
              let lib = (e.reply (opened ∷ t)).ptr in
              let k1 = quiet-Kept opened real h t tt k in
              rw named (elim (Bool-cases (is_null lib)) [
                | inl missing ↦ rw missing (active, k1)
                | inr loaded ↦ rw loaded (
                    let s1 = record s { interceptor_lib = lib } in
                    let entry : ProcessCall = dlsym lib Symbol.hip_interceptor_init in
                    let init = (e.reply (entry ∷ opened ∷ t)).ptr in
                    bind (Started real h) (Started real h)
                      (init_found v which memory (which lib) init real e s1 (entry ∷ opened ∷ t)) _
                      (init_found-Started (which lib) init s1 real h (entry ∷ opened ∷ t) (ours lib)
                        active (quiet-Kept entry real h (opened ∷ t) tt k1))
                      λ u s' t' k'. (
                        k'.0,
                        quiet-Kept (dlsym lib Symbol.hip_interceptor_shutdown) real h t' tt k'.1,
                      ))
              ])
        ]

    -- The process aborts when there is no backend.
    abbrev pub FindsBackend : Type 0
    FindsBackend =
        (path : Str) (t : List ProcessCall) → is_null (e.reply (dlopen_global path ∷ t)).ptr ≡ false

    pub intercept_init-Started :
        (s : Process) (h : History) (t : List ProcessCall)
        → FindsBackend
        → FindsAll e
        → ((l : ℕ) → IsLoggingOrNoop (which l))
        → Logs e h t
        → Ensures
            (λ u s' t'. (real : Slots) × Started real h u s' t')
            (intercept_init v which memory e s t)
    unfolding intercept_init
    intercept_init-Started s h t backend finds ours l =
        let opened : ProcessCall = dlopen_global (backend_path v.hip_passthrough_backend_lib) in
        let lib = (e.reply (opened ∷ t)).ptr in
        let s1 = record s { backend_lib = lib } in
        rw (backend (backend_path v.hip_passthrough_backend_lib) t) (
          bind _ _ (load_all lib all_functions zeroed e s1 (opened ∷ t)) _
            (load_all-Part e finds lib all_functions zeroed s1 h (opened ∷ t)
              (zeroed-Part e (opened ∷ t)) (quiet-Logs e opened h t tt l))
            λ real s2 t2 k.
              mono (Started real h) _
                (load_interceptor v which memory real v.hip_interception_library e
                  (record s2 { real_table = some real; active_table = some real }) t2)
                (load_interceptor-Started v.hip_interception_library
                  (record s2 { real_table = some real; active_table = some real }) real h t2 ours
                  (rw k.0 (backend (backend_path v.hip_passthrough_backend_lib) t), inl refl)
                  (Part-Real e real t2 k.1, k.2))
                λ u s3 t3 k3. (real, k3))
