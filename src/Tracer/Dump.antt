-- ===== src/Tracer/Dump.antt =====
-- crates/hip-buffer-tracer/src/lib.rs: dumping the tracked buffers. What a buffer holds is a parameter,
-- a function of the trace and the address, since the device and the program write it.
use hrx_system_rs.Base.{
  ℕ, zero, suc, ◌+◌, ◌-◌, ◌%◌, ◌^◌, Bool, false, not, ◌&&◌, ◌||◌, Option, none, some, List, [], ◌∷◌,
  ◌++◌, ltb, ◌==◌, if◌then◌else◌, ℤ, pos, negsuc, get_elem?,
}
use Prim.Native.Nat.{min}
use hrx_system_rs.Ffi.{pure, panic, ◌>>=◌, ◌>>◌, call, get}
use hrx_system_rs.Tracer.{
  BufferType, TrackedBuffer, State, Label, dump_header, memcpy_failed, hash_line, buffer_line,
  hex_lines, TracerCall, hip_memcpy_to_host, T, on_slot, trace_msg, raw_write, compute_hash,
}
use hrx_system_rs.Hip.{HipFunction}
use hrx_system_rs.Tracer.Text.{Str, decimal, hex_byte}

-- A new line and an indent, or a space, or nothing.
abbrev separator : ℕ → Str
separator j =
    if j % 32 == 0 then 10 ∷ 32 ∷ 32 ∷ 32 ∷ 32 ∷ [] else if j % 4 == 0 then 32 ∷ [] else []

abbrev append_to : Str → Option Str → Option Str
append_to s none = none
append_to s (some rest) = some (s ++ rest)

abbrev byte_then : Option ℕ → ℕ → Option Str → Option Str
byte_then none j rest = none
byte_then (some b) j rest = append_to (hex_byte b ++ separator j) rest

-- `n` rounds of the loop, from round `i`: `none` is an index out of range.
unfoldable pub hex_bytes : ℕ → ℕ → List ℕ → Option Str
hex_bytes zero i bytes = some []
hex_bytes (suc n) i bytes = byte_then (get_elem? bytes i) (i + 1) (hex_bytes n (i + 1) bytes)

-- "... (n more bytes)"
abbrev more_bytes : ℕ → Str
more_bytes n =
    46
    ∷ 46
    ∷ 46
    ∷ 32
    ∷ 40
    ∷ (decimal n ++ 32 ∷ 109 ∷ 111 ∷ 114 ∷ 101 ∷ 32 ∷ 98 ∷ 121 ∷ 116 ∷ 101 ∷ 115 ∷ 41 ∷ [])

abbrev write_hex : ℕ → ℕ → Option Str → T (Unit {0})
write_hex size max_bytes none = panic
write_hex size max_bytes (some s) = raw_write (
    hex_lines (
      32
      ∷ 32
      ∷ 32
      ∷ 32
      ∷ (s ++ (if ltb max_bytes size then more_bytes (size - max_bytes) else []) ++ 10 ∷ [])))

unfoldable pub dump_buffer_hex : List ℕ → ℕ → ℕ → T (Unit {0})
dump_buffer_hex bytes size max_bytes =
    write_hex size max_bytes (hex_bytes (min size max_bytes) 0 bytes)

abbrev is_int : ℕ → ℤ → Bool
is_int n (pos m) = m == n
is_int n (negsuc m) = false

-- The bytes at the `n` addresses from `ptr`.
unfoldable pub read_bytes : (ℕ → ℕ) → ℕ → ℕ → List ℕ
read_bytes memory ptr zero = []
read_bytes memory ptr (suc n) = memory ptr ∷ read_bytes memory (ptr + 1) n

abbrev pub read_size : State → Bool → TrackedBuffer → ℕ
read_size st force b =
    if not force && ltb 0 st.trace_dump_max && ltb st.trace_dump_max b.size
    then st.trace_dump_max
    else b.size

abbrev pub max_dump : State → Bool → TrackedBuffer → ℕ
max_dump st force b = if force then b.size else st.trace_dump_max

abbrev pub show_bytes : State → Bool → TrackedBuffer → List ℕ → T (Unit {0})
show_bytes st force b bytes =
    if is_int 2 st.trace_dump && not force
    then raw_write (hash_line b (compute_hash bytes))
    else do raw_write (buffer_line b); dump_buffer_hex bytes b.size (max_dump st force b)

-- `staging.resize`, which panics above `isize::MAX`.
abbrev resize : ℕ → T (Unit {0})
resize n = if ltb (2 ^ 63 - 1) n then panic else pure tt

-- `real`: which slots of the real table are filled.
module _ (real : HipFunction → Bool) (memory : List TracerCall → ℕ → ℕ) where
  abbrev show_memory : State → Bool → TrackedBuffer → T (Unit {0})
  show_memory st force b e s t =
      show_bytes st force b (read_bytes (memory t) b.ptr (read_size st force b)) e s t

  -- Device memory is staged through the host.
  abbrev show_copied : State → Bool → TrackedBuffer → ℕ → T (Unit {0})
  show_copied st force b err =
      if err == 0 then show_memory st force b else trace_msg 1 (memcpy_failed b err)

  abbrev pub show_buffer : State → Bool → TrackedBuffer → BufferType → T (Unit {0})
  show_buffer st force b BufferType.device = do
    resize (read_size st force b)
    r ←
        on_slot (real HipFunction.hip_memcpy)
          (call (hip_memcpy_to_host b.ptr (read_size st force b)))
    show_copied st force b r.num
  show_buffer st force b _ = show_memory st force b

  unfoldable pub dump_buffers : State → Bool → List TrackedBuffer → T (Unit {0})
  dump_buffers st force [] = pure tt
  dump_buffers st force (b ∷ bs) =
      let rest = dump_buffers st force bs in
      if not b.in_use || (b.size == 0) then rest else do show_buffer st force b b.btype; rest

  unfoldable pub dump_all_buffers_ex : Label → Bool → T (Unit {0})
  dump_all_buffers_ex label force = do
    st ← get
    if is_int 0 st.trace_dump then pure tt else do
      trace_msg 3 (dump_header label st.buffers.count force)
      dump_buffers st force st.buffers.buffers
