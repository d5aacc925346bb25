-- ===== src/Tracer/Setup.antt =====
-- crates/hip-buffer-tracer/src/lib.rs: the state that `hip_interceptor_init` sets up from the
-- environment variables HIP_TRACE_*. `none` is a variable that is not set.
use hrx_system_rs.Base.{
  ℕ, ◌-◌, ◌^◌, Bool, true, false, not, Option, none, some, [], if◌then◌else◌, ℤ, pos, negsuc, ◌==◌,
}
use hrx_system_rs.Tracer.{State, empty_table}
use hrx_system_rs.Tracer.Text.{Str, is_empty, atoi, atol}

pub record Variables : Type 0 where
  pub level : Option Str
  pub sync : Option Str
  pub dump : Option Str
  pub dump_max : Option Str
  pub kernel_filter : Option Str
  pub kernel_count : Option Str
  pub kernel_full_dump : Option Str

abbrev pub getenv_int : Option Str → ℤ → ℤ
getenv_int none default_ = default_
getenv_int (some s) default_ = atoi s

abbrev is_set : Option Str → Bool
is_set none = false
is_set (some s) = elim (atoi s) [ pos n ↦ not (n == 0) | negsuc n ↦ true ]

-- `as usize` of an `i64`.
abbrev as_usize : ℤ → ℕ
as_usize (pos n) = n
as_usize (negsuc n) = 2 ^ 64 - 1 - n

abbrev dump_limit : Option Str → ℕ
dump_limit none = 1024
dump_limit (some s) = as_usize (atol s)

abbrev unless_empty : Option Str → Option Str
unless_empty none = none
unless_empty (some s) = if is_empty s then none else some s

-- `has_file`: a trace destination could be opened. The table has MAX_TRACKED_BUFFERS slots.
unfoldable pub hip_interceptor_init : Bool → Variables → ℕ → State
hip_interceptor_init has_file v slots = record {
  has_file = has_file;
  trace_level = getenv_int v.level (pos 2);
  trace_sync = is_set v.sync;
  trace_dump = getenv_int v.dump (pos 0);
  trace_dump_max = dump_limit v.dump_max;
  kernel_filter = v.kernel_filter;
  kernel_count_limit = getenv_int v.kernel_count (pos 0);
  kernel_count = 0;
  kernel_full_dump_list = unless_empty v.kernel_full_dump;
  buffers = empty_table slots;
  kernels = [];
}
