-- ===== src/Tracer.antt =====
-- crates/hip-buffer-tracer/src/lib.rs: the interceptor that tracks allocations and kernels and dumps
-- the tracked buffers around kernel launches. The state is `State`, behind its lock for the whole of a
-- call. The real HIP functions and the trace file are called through `TracerCall`.
pub mod Text
pub mod Dump
pub mod Wrappers
pub mod Forwarding
pub mod Decisions
pub mod Client
pub mod Tables
pub mod DumpSafety
pub mod Tracking
pub mod Setup
pub mod Kernels
pub mod Untracking
pub mod Abstract
pub mod Runs
pub mod Numbers
use hrx_system_rs.Base.{
  ℕ, zero, suc, ◌+◌, ◌-◌, ◌*◌, ◌%◌, ◌^◌, Bool, true, false, not, ◌&&◌, ◌||◌, Option, none, some,
  List, [], ◌∷◌, ◌++◌, ltb, leb, ◌==◌, if◌then◌else◌, add_u64, bit_xor, ℤ, pos, negsuc, replicate,
}
use hrx_system_rs.Ffi.{M, pure, panic, ◌>>=◌, ◌>>◌, emit, get, modify}
use hrx_system_rs.Hal.{is_null}
use hrx_system_rs.Hip.{HipCall}
use Text.{Str, contains, is_empty, split, p}

pub data BufferType : Type 0 where
  device host managed : BufferType

pub record TrackedBuffer : Type 0 where
  pub ptr : ℕ
  pub size : ℕ
  pub btype : BufferType
  pub in_use : Bool
  pub alloc_id : ℕ

pub record BufferTable : Type 0 where
  pub buffers : List TrackedBuffer
  pub count : ℕ
  pub next_alloc_id : ℕ

pub record KernelInfo : Type 0 where
  pub host_func : ℕ
  pub name : Str

-- The label of a dump: the kernel's number and name, and after a launch its result.
pub data Label : Type 0 where
  before : ℕ → Option Str → Label
  after : ℕ → Option Str → ℕ → Label

-- The three launch functions.
pub data Launch : Type 0 where
  module_launch_kernel launch_kernel ext_module_launch_kernel : Launch

-- The lines that the tracer formats, by the values in them.
pub data TraceLine : Type 0 where
  table_full : ℕ → TraceLine
  -- label, buffers, forced
  dump_header : Label → ℕ → Bool → TraceLine
  memcpy_failed : TrackedBuffer → ℕ → TraceLine
  hash_line : TrackedBuffer → ℕ → TraceLine
  buffer_line : TrackedBuffer → TraceLine
  hex_lines : Str → TraceLine
  full_dump_match : Str → Str → TraceLine
  -- size, pointer, result
  malloc_line host_malloc_line : ℕ → ℕ → ℕ → TraceLine
  free_line host_free_line : ℕ → ℕ → TraceLine
  launch_line : Launch → ℕ → Option Str → TraceLine
  launch_result : ℕ → TraceLine
  register_line : ℕ → Option Str → TraceLine
  -- the call, what it answered, and what then stands behind its out pointer
  call_line : HipCall → ℕ → ℕ → TraceLine
  notice_line : HipCall → TraceLine
  shutting_down : TraceLine
  kernels_traced buffers_tracked : ℕ → TraceLine

pub data TracerCall : Type 0 where
  -- a line with a time stamp, at this level, and a line without one
  trace_line : ℕ → TraceLine → TracerCall
  raw_line : TraceLine → TracerCall
  hip_malloc hip_host_malloc : ℕ → ℕ → TracerCall
  hip_free hip_host_free : ℕ → TracerCall
  -- to host memory, from the device pointer, size
  hip_memcpy_to_host : ℕ → ℕ → TracerCall
  hip_device_synchronize : TracerCall
  -- with the kernel's handle
  hip_launch : Launch → ℕ → TracerCall
  hip_register_function : ℕ → TracerCall
  -- any other function of HIP
  hip_forward : HipCall → TracerCall
  close_trace_file : TracerCall

-- `kernel_count` is the bit pattern of an `i32`.
pub record State : Type 0 where
  pub has_file : Bool
  pub trace_level : ℤ
  pub trace_sync : Bool
  pub trace_dump : ℤ
  pub trace_dump_max : ℕ
  pub kernel_filter : Option Str
  pub kernel_count_limit : ℤ
  pub kernel_count : ℕ
  pub kernel_full_dump_list : Option Str
  pub buffers : BufferTable
  pub kernels : List KernelInfo

abbrev pub T : Type 0 → Type 0
T A = M TracerCall State A

-- A call through `real_table(st)`: the slot is unwrapped, so an empty one panics.
abbrev pub on_slot : Bool → {A : Type 0} → T A → T A
on_slot true m = m
on_slot false m = panic

abbrev pub max_tracked_buffers : ℕ
max_tracked_buffers = 65536

abbrev pub unused : TrackedBuffer
unused = record { ptr = 0; size = 0; btype = BufferType.device; in_use = false; alloc_id = 0 }

-- The table at initialisation, with this many slots.
abbrev pub empty_table : ℕ → BufferTable
empty_table slots = record { buffers = replicate slots unused; count = 0; next_alloc_id = 1 }

-- `level > st.trace_level`.
abbrev pub is_above : ℕ → ℤ → Bool
is_above level (pos n) = ltb n level
is_above level (negsuc n) = true

abbrev pub trace_msg : ℕ → TraceLine → T (Unit {0})
trace_msg level line = do
  st ← get
  if is_above level st.trace_level || not st.has_file then pure tt else emit (trace_line level line)

abbrev pub raw_write : TraceLine → T (Unit {0})
raw_write line = do st ← get; if st.has_file then emit (raw_line line) else pure tt

-- FNV-1a over 64-bit words.
abbrev hash_byte : ℕ → ℕ → ℕ
hash_byte h b = (bit_xor 64 h b * 1099511628211) % 2 ^ 64

abbrev hash_from : ℕ → List ℕ → ℕ
hash_from h [] = h
hash_from h (b ∷ bs) = hash_from (hash_byte h b) bs

abbrev pub compute_hash : List ℕ → ℕ
compute_hash data_ = hash_from 14695981039346656037 data_

abbrev set_buffers : BufferTable → State → State
set_buffers b st = record st { buffers = b }

-- The table with the value in its first free slot, `none` when no slot is free.
abbrev pub keep_slot : TrackedBuffer → Option (List TrackedBuffer) → Option (List TrackedBuffer)
keep_slot b none = none
keep_slot b (some bs) = some (b ∷ bs)

unfoldable pub fill_slot : TrackedBuffer → List TrackedBuffer → Option (List TrackedBuffer)
fill_slot new [] = none
fill_slot new (b ∷ bs) = if b.in_use then keep_slot b (fill_slot new bs) else some (new ∷ bs)

abbrev pub filled : ℕ → Option (List TrackedBuffer) → T (Unit {0})
filled ptr none = trace_msg 1 (table_full ptr)
filled ptr (some bs) = modify λ st.
    set_buffers
      (record {
        buffers = bs;
        count = add_u64 st.buffers.count 1;
        next_alloc_id = add_u64 st.buffers.next_alloc_id 1;
      })
      st

unfoldable pub buffer_table_add : ℕ → ℕ → BufferType → T (Unit {0})
buffer_table_add ptr size btype = if is_null ptr || (size == 0) then pure tt else do
  st ← get
  filled ptr (
      fill_slot
        (record {
          ptr = ptr;
          size = size;
          btype = btype;
          in_use = true;
          alloc_id = st.buffers.next_alloc_id;
        })
        st.buffers.buffers)

-- The table without the first used slot of this pointer, `none` when there is none.
unfoldable pub clear_slot : ℕ → List TrackedBuffer → Option (List TrackedBuffer)
clear_slot ptr [] = none
clear_slot ptr (b ∷ bs) =
    if b.in_use && (b.ptr == ptr)
    then some (record b { in_use = false } ∷ bs)
    else keep_slot b (clear_slot ptr bs)

-- The subtraction wraps, as in a release build.
abbrev pub cleared : Option (List TrackedBuffer) → T (Unit {0})
cleared none = pure tt
cleared (some bs) = modify λ st.
    set_buffers
      (record {
        buffers = bs;
        count = add_u64 st.buffers.count (2 ^ 64 - 1);
        next_alloc_id = st.buffers.next_alloc_id;
      })
      st

unfoldable pub buffer_table_remove : ℕ → T (Unit {0})
buffer_table_remove ptr =
    if is_null ptr then pure tt else do st ← get; cleared (clear_slot ptr st.buffers.buffers)

unfoldable pub kernel_table_get_name : ℕ → List KernelInfo → Option Str
kernel_table_get_name host_func [] = none
kernel_table_get_name host_func (k ∷ ks) =
    if k.host_func == host_func then some k.name else kernel_table_get_name host_func ks

unfoldable pub is_registered : ℕ → List KernelInfo → Bool
is_registered host_func [] = false
is_registered host_func (k ∷ ks) = (k.host_func == host_func) || is_registered host_func ks

-- "kernel_" and the address.
abbrev pub name_or_address : Option Str → ℕ → Str
name_or_address (some name) host_func = name
name_or_address none host_func = 107 ∷ 101 ∷ 114 ∷ 110 ∷ 101 ∷ 108 ∷ 95 ∷ p host_func

unfoldable pub kernel_table_add : ℕ → Option Str → List KernelInfo → List KernelInfo
kernel_table_add host_func name ks =
    if is_null host_func || is_registered host_func ks
    then ks
    else ks ++ record { host_func = host_func; name = name_or_address name host_func } ∷ []
