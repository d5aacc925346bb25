-- ===== src/Hip/Process.antt =====
-- crates/hip-intercept and the interceptors that it loads, as one process: the calls that leave it, and
-- its state.
use hrx_system_rs.Base.{ℕ, Bool, false, Option, none, List, ℤ, pos, String}
use hrx_system_rs.Ffi.{M}
use hrx_system_rs.Hip.{HipFunction, HipCall, ResultKind}

-- A call of a function outside the table: its name, what it returns, and the bits of its arguments.
pub record DirectCall : Type 0 where
  pub name : String
  pub kind : ResultKind
  pub arguments : List ℕ

-- The names that are looked up in a library.
pub data Symbol : Type 0 where
  function : HipFunction → Symbol
  outside : String → Symbol
  hip_interceptor_init hip_interceptor_shutdown : Symbol

pub data ProcessCall : Type 0 where
  -- the paths are lists of characters
  dlopen_global dlopen_local : List ℕ → ProcessCall
  dlsym : ℕ → Symbol → ProcessCall
  dlclose : ℕ → ProcessCall
  -- a function behind a pointer
  invoke : ℕ → HipCall → ProcessCall
  forward : ℕ → DirectCall → ProcessCall
  -- the entry points of hip-buffer-tracer or of an interceptor from elsewhere
  foreign_init foreign_shutdown : ℕ → ProcessCall
  clock_gettime : ProcessCall
  fopen : List ℕ → ProcessCall
  fdopen_stderr : ProcessCall
  fwrite : ℕ → List ℕ → ProcessCall
  fflush fclose : ℕ → ProcessCall
  eprint : List ℕ → ProcessCall

-- A function pointer of a table: one of a library, or the wrapper of hip-logging for the slot.
pub data Target : Type 0 where
  library : ℕ → Target
  logging : Target

abbrev pub Slots : Type 0
Slots = HipFunction → Option Target

-- `Logger`. The file is NULL while there is none; the level is an `int`.
pub record Logger : Type 0 where
  pub file : ℕ
  pub level : ℤ
  pub owns_file : Bool

-- The statics of hip-intercept (a table pointer is `none` for NULL) and of hip-logging.
pub record Process : Type 0 where
  pub init_done : Bool
  pub backend_lib : ℕ
  pub interceptor_lib : ℕ
  pub interceptor_shutdown : ℕ
  pub real_table : Option Slots
  pub active_table : Option Slots
  pub log_real : Option Slots
  pub log : Logger

abbrev pub P : Type 0 → Type 0
P A = M ProcessCall Process A

-- The statics as they start, in hip-intercept and in hip-logging.
abbrev pub new_process : Process
new_process = record {
  init_done = false;
  backend_lib = 0;
  interceptor_lib = 0;
  interceptor_shutdown = 0;
  real_table = none;
  active_table = none;
  log_real = none;
  log = record { file = 0; level = pos 2; owns_file = false };
}
