-- ===== src/Hip/Intercept.antt =====
-- crates/hip-intercept/src/lib.rs: the library that is loaded in place of HIP. It opens the backend and
-- an interceptor, and routes every exported call through the active table.
pub mod Client
pub mod Routing
pub mod Wrappers
pub mod Loading
pub mod Setup
pub mod Ready
pub mod Transparent
pub mod Missing
use hrx_system_rs.Base.{
  ℕ, String, Bool, true, false, Option, none, some, List, [], ◌∷◌, ◌==◌, if◌then◌else◌,
}
use hrx_system_rs.Ffi.{pure, panic, ◌>>=◌, ◌>>◌, call, emit, get, modify}
use hrx_system_rs.Hal.{is_null}
use hrx_system_rs.Tracer.Text.{Str, is_empty}
use hrx_system_rs.Hip.{
  HipFunction, HipCall, function_of, kind_of, Answer, error, pointer, nothing, unknown, ResultKind,
  error_kind, pointer_kind, text_kind, no_kind,
}
use hrx_system_rs.Hip.Table.{all_functions, index_of}
use hrx_system_rs.Hip.Process.{
  ProcessCall, Symbol, dlopen_global, dlopen_local, dlsym, dlclose, invoke, forward, DirectCall,
  foreign_init, foreign_shutdown, eprint, Target, library, logging, Slots, Process, P,
}
use hrx_system_rs.Hip.Noop as noop
use hrx_system_rs.Hip.Logging.{answer_of, wrapper}
use hrx_system_rs.Hip.Logging.Entry.{hip_interceptor_init, hip_interceptor_shutdown}
use hrx_system_rs.Hip.Logging.Messages.{Memory}
use hrx_system_rs.Hip.Logging.Text.{codes}

-- What an interceptor library is: one of this repository, or one from elsewhere. The entry points and the
-- wrappers of hip-buffer-tracer are calls that leave this model: Tracer models them. The table is the one
-- that the entry point returns.
pub data Interceptor : Type 0 where
  hip_logging hip_noop : Interceptor
  hip_buffer_tracer : (HipFunction → Option ℕ) → Interceptor
  foreign : Option (HipFunction → Option ℕ) → Interceptor

-- The environment variables, `none` for one that is not set.
pub record Variables : Type 0 where
  pub hip_passthrough_backend_lib : Option Str
  pub hip_interception_library : Option Str
  pub hip_log_file : Option Str
  pub hip_log_level : Option Str

abbrev default_backend : Str
default_backend = codes "/opt/rocm/lib/libamdhip64.so"

abbrev pub backend_path : Option Str → Str
backend_path none = default_backend
backend_path (some path) = if is_empty path then default_backend else path

-- A pointer that a lookup answered, as a function that may be missing.
abbrev pub target_of : ℕ → Option Target
target_of p = if is_null p then none else some (library p)

abbrev pub with_slot : HipFunction → Option Target → Slots → Slots
with_slot f target slots g = if index_of g == index_of f then target else slots g

-- `load_all!`.
unfoldable pub load_all : ℕ → List HipFunction → Slots → P Slots
load_all lib [] slots = pure slots
load_all lib (f ∷ fs) slots = do
  s ← call (dlsym lib (Symbol.function f))
  load_all lib fs (with_slot f (target_of s.ptr) slots)

-- `core::mem::zeroed()`.
abbrev pub zeroed : Slots
zeroed f = none

abbrev foreign_slots : (HipFunction → Option ℕ) → Slots
foreign_slots table f = elim (table f) [ none ↦ none | some p ↦ some (library p) ]

abbrev foreign_table : Option (HipFunction → Option ℕ) → Option Slots
foreign_table none = none
foreign_table (some table) = some (foreign_slots table)

abbrev set_active : Slots → Process → Process
set_active slots s = record s { active_table = some slots }

-- A NULL table leaves the real one active.
abbrev activate : Option Slots → P (Unit {0})
activate none = pure tt
activate (some table) = modify (set_active table)

-- The answer for an empty slot.
abbrev pub missing : ResultKind → Answer
missing error_kind = error 0
missing pointer_kind = pointer 0
missing text_kind = unknown
missing no_kind = nothing

-- The answer of a function outside the table that is missing.
abbrev pub not_found : ResultKind → Answer
not_found error_kind = error 1
not_found pointer_kind = pointer 0
not_found text_kind = unknown
not_found no_kind = nothing

-- `which` tells what the library at a handle is; `memory` is what the caller's pointers lead to.
module _ (v : Variables) (which : ℕ → Interceptor) (memory : List ProcessCall → Memory) where
  unfoldable pub init_interceptor : Interceptor → ℕ → Slots → P (Unit {0})
  init_interceptor hip_logging init real = do
    table ← hip_interceptor_init real v.hip_log_file v.hip_log_level
    activate (some table)
  init_interceptor hip_noop init real = do table ← noop.hip_interceptor_init real; activate table
  init_interceptor (hip_buffer_tracer table) init real = do
    emit (foreign_init init)
    activate (some (foreign_slots table))
  init_interceptor (foreign table) init real = do
    emit (foreign_init init)
    activate (foreign_table table)

  -- The entry point, unless it is missing.
  abbrev pub init_found : Interceptor → ℕ → Slots → P (Unit {0})
  init_found i init real = if is_null init then pure tt else init_interceptor i init real

  unfoldable pub load_interceptor : Slots → Option Str → P (Unit {0})
  load_interceptor real none = pure tt
  load_interceptor real (some path) = if is_empty path then pure tt else do
    l ← call (dlopen_local path)
    if is_null l.ptr then pure tt else do
      modify λ s. record s { interceptor_lib = l.ptr }
      i ← call (dlsym l.ptr Symbol.hip_interceptor_init)
      init_found (which l.ptr) i.ptr real
      sh ← call (dlsym l.ptr Symbol.hip_interceptor_shutdown)
      modify λ s. record s { interceptor_shutdown = sh.ptr }

  -- The text of `dlerror` follows the message; then the process aborts.
  unfoldable pub intercept_init : P (Unit {0})
  intercept_init = do
    b ← call (dlopen_global (backend_path v.hip_passthrough_backend_lib))
    if is_null b.ptr
        then (do emit (eprint (codes "hip_intercept: failed to load backend: ")); panic)
        else do
          modify λ s. record s { backend_lib = b.ptr }
          real ← load_all b.ptr all_functions zeroed
          modify λ s. record s { real_table = some real; active_table = some real }
          load_interceptor real v.hip_interception_library

  -- The first initialization.
  abbrev pub call_once : Bool → P (Unit {0})
  call_once true = pure tt
  call_once false = do intercept_init; modify λ s. record s { init_done = true }

  unfoldable pub ensure_init : P (Unit {0})
  ensure_init = do s ← get; call_once s.init_done

  abbrev pub loaded_table : Option Slots → P (Option Slots)
  loaded_table none = do ensure_init; s ← get; pure s.active_table
  loaded_table (some slots) = pure (some slots)

  abbrev pub active : P (Option Slots)
  active = do s ← get; loaded_table s.active_table

  abbrev pub call_slot : Option Target → HipCall → P Answer
  call_slot none c = pure (missing (kind_of (function_of c)))
  call_slot (some (library f)) c = do
    r ← call (invoke f c)
    pure (answer_of (kind_of (function_of c)) r)
  call_slot (some logging) c = wrapper memory c

  -- A NULL table cannot be read.
  abbrev pub through : Option Slots → HipCall → P Answer
  through none c = panic
  through (some slots) c = call_slot (slots (function_of c)) c

  -- The exported function of a slot.
  unfoldable pub exported : HipCall → P Answer
  exported c = do ensure_init; table ← active; through table c

  -- A name in the backend, NULL when it is missing.
  unfoldable pub backend_sym : String → P ℕ
  backend_sym name = do
    ensure_init
    s ← get
    if is_null s.backend_lib
        then pure 0
        else do r ← call (dlsym s.backend_lib (Symbol.outside name)); pure r.ptr

  abbrev pub forwarded : ℕ → DirectCall → P Answer
  forwarded f d =
      if is_null f
      then pure (not_found d.kind)
      else do r ← call (forward f d); pure (answer_of d.kind r)

  -- The functions outside the table, which are all of this shape.
  unfoldable pub passthrough : DirectCall → P Answer
  passthrough d = do ensure_init; f ← backend_sym d.name; forwarded f d

  unfoldable pub hip_passthrough_get_real_table : P (Option Slots)
  hip_passthrough_get_real_table = do ensure_init; s ← get; pure s.real_table

  unfoldable pub hip_passthrough_get_active_table : P (Option Slots)
  hip_passthrough_get_active_table = do ensure_init; active

  abbrev pub shutdown_interceptor : Interceptor → ℕ → P (Unit {0})
  shutdown_interceptor hip_logging sh = hip_interceptor_shutdown
  shutdown_interceptor hip_noop sh = noop.hip_interceptor_shutdown
  shutdown_interceptor (hip_buffer_tracer table) sh = emit (foreign_shutdown sh)
  shutdown_interceptor (foreign table) sh = emit (foreign_shutdown sh)

  unfoldable pub intercept_fini : P (Unit {0})
  intercept_fini = do
    s ← get
    if is_null s.interceptor_shutdown
        then pure tt
        else shutdown_interceptor (which s.interceptor_lib) s.interceptor_shutdown
    if is_null s.interceptor_lib then pure tt else emit (dlclose s.interceptor_lib)
