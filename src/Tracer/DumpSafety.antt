-- ===== src/Tracer/DumpSafety.antt =====
-- crates/hip-buffer-tracer/src/lib.rs: what a dump of the tracked buffers reads and indexes.
use hrx_system_rs.Base.{
  ℕ, zero, suc, ◌+◌, ◌^◌, true, ◌≤◌, ◌<◌, ◌≡◌, ◌≢◌, inl, inr, Bool-cases, refl, Bool, not, ◌||◌,
  Option, none, List, [], ◌∷◌, ◌==◌, length, get_elem?, arith,
}
use Prim.Native.Nat.{min}
use hrx_system_rs.Ffi.{Env}
use hrx_system_rs.Ffi.Ensures.{Ensures, bind}
use hrx_system_rs.Tracer.{
  BufferType, TrackedBuffer, Label, State, TracerCall, TraceLine, hip_memcpy_to_host, trace_msg,
}
use hrx_system_rs.Hip.{HipFunction}
use hrx_system_rs.Tracer.Tables.{AllFit}
use hrx_system_rs.Tracer.Decisions.{should_full_dump_kernel}
use hrx_system_rs.Tracer.Text.{Str}
use hrx_system_rs.Tracer.Dump.{
  hex_bytes, read_bytes, read_size, max_dump, dump_buffer_hex, show_bytes, show_buffer,
  dump_buffers, dump_all_buffers_ex,
}

module _ (e : Env TracerCall) where
  trace_msg-same :
      (level : ℕ) (line : TraceLine) (st : State) (t : List TracerCall)
      → Ensures (λ _ st' _. st' ≡ st) (trace_msg level line e st t)
  trace_msg-same level line st t = ground arith

  pub should_full_dump_kernel-same :
      (name : Option Str) (st : State) (t : List TracerCall)
      → Ensures (λ _ st' _. st' ≡ st) (should_full_dump_kernel name e st t)
  unfolding should_full_dump_kernel
  should_full_dump_kernel-same name st t = ground arith

get_elem-inside : (xs : List ℕ) (i : ℕ) → i < length xs → get_elem? xs i ≢ none
get_elem-inside [] i h eq = absurd (omega arith)
get_elem-inside (x ∷ xs) zero h eq = ground arith
get_elem-inside (x ∷ xs) (suc i) h eq = get_elem-inside xs i (omega arith) eq

hex_bytes-inside : (n i : ℕ) (xs : List ℕ) → i + n ≤ length xs → hex_bytes n i xs ≢ none
unfolding hex_bytes
hex_bytes-inside zero i xs h eq = ground arith
hex_bytes-inside (suc n) i xs h eq =
    ground (arith, get_elem-inside xs i (omega arith), hex_bytes-inside n (i + 1) xs (omega arith))

length-read_bytes : (memory : ℕ → ℕ) (ptr n : ℕ) → length (read_bytes memory ptr n) ≡ n
unfolding read_bytes
length-read_bytes memory ptr zero = refl
length-read_bytes memory ptr (suc n) = ground (arith, length-read_bytes memory (ptr + 1) n)

-- The rounds of the hex loop are covered by what was read.
max_dump-read :
    (st : State) (force : Bool) (b : TrackedBuffer)
    → min b.size (max_dump st force b) ≤ read_size st force b
max_dump-read st force b = ground arith

module _ (e : Env TracerCall) where
  dump_buffer_hex-same :
      (bytes : List ℕ) (size max_bytes : ℕ) (st : State) (t : List TracerCall)
      → min size max_bytes ≤ length bytes
      → Ensures (λ _ st' _. st' ≡ st) (dump_buffer_hex bytes size max_bytes e st t)
  unfolding dump_buffer_hex
  dump_buffer_hex-same bytes size max_bytes st t h =
      ground (arith, hex_bytes-inside (min size max_bytes) 0 bytes (omega arith))

  show_bytes-same :
      (st0 : State) (force : Bool) (b : TrackedBuffer) (bytes : List ℕ) (st : State)
      (t : List TracerCall)
      → length bytes ≡ read_size st0 force b
      → Ensures (λ _ st' _. st' ≡ st) (show_bytes st0 force b bytes e st t)
  show_bytes-same st0 force b bytes st t h =
      grind
        (arith, dump_buffer_hex-same bytes b.size (max_dump st0 force b), max_dump-read st0 force b)

  module _ (real : HipFunction → Bool) (filled : real HipFunction.hip_memcpy ≡ true)
      (memory : List TracerCall → ℕ → ℕ) where
    show_buffer-same :
        (st0 : State) (force : Bool) (b : TrackedBuffer) (btype : BufferType) (st : State)
        (t : List TracerCall)
        → b.size < 2 ^ 63
        → Ensures (λ _ st' _. st' ≡ st) (show_buffer real memory st0 force b btype e st t)
    show_buffer-same st0 force b BufferType.host st t fits =
        show_bytes-same st0 force b _ st t
          (length-read_bytes (memory t) b.ptr (read_size st0 force b))
    show_buffer-same st0 force b BufferType.managed st t fits =
        show_bytes-same st0 force b _ st t
          (length-read_bytes (memory t) b.ptr (read_size st0 force b))
    show_buffer-same st0 force b BufferType.device st t fits =
        let u = hip_memcpy_to_host b.ptr (read_size st0 force b) ∷ t in
        ground (
          arith,
          show_bytes-same st0 force b (read_bytes (memory u) b.ptr (read_size st0 force b)) st u
              (length-read_bytes (memory u) b.ptr (read_size st0 force b)),
        )

    dump_buffers-same :
        (st0 : State) (force : Bool) (bs : List TrackedBuffer) (st : State) (t : List TracerCall)
        → AllFit bs
        → Ensures (λ _ st' _. st' ≡ st) (dump_buffers real memory st0 force bs e st t)
    unfolding dump_buffers
    dump_buffers-same st0 force [] st t fits = refl
    dump_buffers-same st0 force (b ∷ bs) st t fits =
        elim (Bool-cases (not b.in_use || (b.size == 0))) [
          | inl skipped ↦ let rest = dump_buffers-same st0 force bs st t fits.1 in simp skipped rest
          | inr shown ↦
              let both =
                bind (λ _ s _. s ≡ st) (λ _ s _. s ≡ st)
                  (show_buffer real memory st0 force b b.btype e st t)
                  (λ _ s u. dump_buffers real memory st0 force bs e s u)
                  (show_buffer-same st0 force b b.btype st t (ground arith))
                  (λ _ s u same. rw same (dump_buffers-same st0 force bs st u fits.1)) in
              simp shown both
        ]

    -- When the slot of hipMemcpy is filled and no tracked size reaches 2^63, a dump changes no state and
    -- does not panic: it unwraps only that slot, stages no more than a Vec can hold, and each index of
    -- its hex loops is in what was read.
    pub dump_all_buffers_ex-same :
        (label : Label) (force : Bool) (st : State) (t : List TracerCall)
        → AllFit st.buffers.buffers
        → Ensures (λ _ st' _. st' ≡ st) (dump_all_buffers_ex real memory label force e st t)
    unfolding dump_all_buffers_ex
    dump_all_buffers_ex-same label force st t fits = grind (arith, dump_buffers-same)
