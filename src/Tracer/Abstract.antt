-- ===== src/Tracer/Abstract.antt =====
-- crates/hip-buffer-tracer/src/lib.rs: the buffer table as a bag of entries, without the order and the
-- number of its slots.
use hrx_system_rs.Base.{
  ℕ, ◌≡◌, ◌≢◌, refl, Bool-cases, inl, inr, ◌⊎◌, true, false, ◌||◌, Option, none, some, List, [],
  ◌∷◌, ◌==◌, if◌then◌else◌, length, arith,
}
use mathlib.Core.List.{Perm}
use mathlib.Core.List.Perm
use hrx_system_rs.Tracer.{
  BufferType, TrackedBuffer, State, TracerCall, keep_slot, fill_slot, clear_slot, filled, cleared,
  buffer_table_add, buffer_table_remove,
}
use hrx_system_rs.Ffi.{Env}
use hrx_system_rs.Ffi.Ensures.{Ensures}
use hrx_system_rs.Hal.{is_null}

-- The entries that are tracked.
abbrev pub entries : List TrackedBuffer → List TrackedBuffer
entries [] = []
entries (b ∷ bs) = if b.in_use then b ∷ entries bs else entries bs

abbrev pub AddsEntry : TrackedBuffer → List TrackedBuffer → Option (List TrackedBuffer) → Type 0
AddsEntry new bs none = length (entries bs) ≡ length bs
AddsEntry new bs (some cs) = Perm (entries cs) (new ∷ entries bs)

keep_slot-AddsEntry :
    (new b : TrackedBuffer) (bs : List TrackedBuffer) (o : Option (List TrackedBuffer))
    → b.in_use ≡ true
    → AddsEntry new bs o
    → AddsEntry new (b ∷ bs) (keep_slot b o)
keep_slot-AddsEntry new b bs none on h = ground arith
keep_slot-AddsEntry new b bs (some cs) on h =
    let moved : Perm (b ∷ entries cs) (new ∷ b ∷ entries bs) =
      Perm.trans (Perm.cons b h) (Perm.swap new b (entries bs)) in
    simp on moved

fill_slot-AddsEntry :
    (new : TrackedBuffer) (bs : List TrackedBuffer)
    → new.in_use ≡ true
    → AddsEntry new bs (fill_slot new bs)
unfolding fill_slot
fill_slot-AddsEntry new [] h = refl
fill_slot-AddsEntry new (b ∷ bs) h = elim (Bool-cases b.in_use) [
  | inl on ↦
      let kept =
        keep_slot-AddsEntry new b bs (fill_slot new bs) on (fill_slot-AddsEntry new bs h) in
      simp on kept
  | inr off ↦ let same = Perm.refl (new ∷ entries bs) in simp (off, h) same
]

abbrev pub NoEntry : ℕ → List TrackedBuffer → Type 0
NoEntry ptr [] = Unit {0}
NoEntry ptr (b ∷ bs) = (b.ptr ≢ ptr) × NoEntry ptr bs

abbrev pub RemovesEntry : ℕ → List TrackedBuffer → Option (List TrackedBuffer) → Type 0
RemovesEntry ptr bs none = NoEntry ptr (entries bs)
RemovesEntry ptr bs (some cs) =
    (b : TrackedBuffer) × (b.ptr ≡ ptr) × Perm (entries bs) (b ∷ entries cs)

keep_slot-RemovesEntry :
    (ptr : ℕ) (b : TrackedBuffer) (bs : List TrackedBuffer) (o : Option (List TrackedBuffer))
    → b.in_use ≡ true
    → b.ptr ≢ ptr
    → RemovesEntry ptr bs o
    → RemovesEntry ptr (b ∷ bs) (keep_slot b o)
keep_slot-RemovesEntry ptr b bs none on other h = ground arith
keep_slot-RemovesEntry ptr b bs (some cs) on other (x, e, p) =
    let moved : Perm (b ∷ entries bs) (x ∷ b ∷ entries cs) =
      Perm.trans (Perm.cons b p) (Perm.swap x b (entries cs)) in
    (x, e, simp on moved)

skip_slot-RemovesEntry :
    (ptr : ℕ) (b : TrackedBuffer) (bs : List TrackedBuffer) (o : Option (List TrackedBuffer))
    → b.in_use ≡ false
    → RemovesEntry ptr bs o
    → RemovesEntry ptr (b ∷ bs) (keep_slot b o)
skip_slot-RemovesEntry ptr b bs none off h = ground arith
skip_slot-RemovesEntry ptr b bs (some cs) off (x, e, p) = (x, e, simp off p)

clear_slot-RemovesEntry :
    (ptr : ℕ) (bs : List TrackedBuffer) → RemovesEntry ptr bs (clear_slot ptr bs)
unfolding clear_slot
clear_slot-RemovesEntry ptr [] = tt
clear_slot-RemovesEntry ptr (b ∷ bs) = elim (Bool-cases b.in_use) [
  | inr off ↦
      let skipped =
        skip_slot-RemovesEntry ptr b bs (clear_slot ptr bs) off (clear_slot-RemovesEntry ptr bs) in
      simp off skipped
  | inl on ↦ elim (Bool-cases (b.ptr == ptr)) [
    | inl same ↦ simp (on, same) (b, ground arith, Perm.refl (b ∷ entries bs))
    | inr other ↦
        let kept =
          keep_slot-RemovesEntry ptr b bs (clear_slot ptr bs) on (ground arith)
            (clear_slot-RemovesEntry ptr bs) in
        simp (on, other) kept
  ]
]

abbrev pub tracked : State → List TrackedBuffer
tracked st = entries st.buffers.buffers

abbrev pub new_entry : State → ℕ → ℕ → BufferType → TrackedBuffer
new_entry st ptr size btype = record {
  ptr = ptr;
  size = size;
  btype = btype;
  in_use = true;
  alloc_id = st.buffers.next_alloc_id;
}

abbrev pub Added : State → ℕ → ℕ → BufferType → State → Type 0
Added st ptr size btype st' =
    (((ptr ≢ 0) × (size ≢ 0)) × Perm (tracked st') (new_entry st ptr size btype ∷ tracked st))
    ⊎ ((tracked st' ≡ tracked st)
        × ((ptr ≡ 0) ⊎ ((size ≡ 0) ⊎ (length (tracked st) ≡ length st.buffers.buffers))))

abbrev pub Removed : State → ℕ → State → Type 0
Removed st ptr st' =
    ((ptr ≢ 0) × ((b : TrackedBuffer) × (b.ptr ≡ ptr) × Perm (tracked st) (b ∷ tracked st')))
    ⊎ ((tracked st' ≡ tracked st) × ((ptr ≡ 0) ⊎ NoEntry ptr (tracked st)))

module _ (e : Env TracerCall) (st : State) (t : List TracerCall) where
  filled-Added :
      (ptr size : ℕ) (btype : BufferType) (o : Option (List TrackedBuffer))
      → (ptr ≢ 0) × (size ≢ 0)
      → AddsEntry (new_entry st ptr size btype) st.buffers.buffers o
      → Ensures (λ _ st' _. Added st ptr size btype st') (filled ptr o e st t)
  filled-Added ptr size btype (some cs) live h = inl (live, h)
  filled-Added ptr size btype none live h = ground arith

  cleared-Removed :
      (ptr : ℕ) (o : Option (List TrackedBuffer))
      → ptr ≢ 0
      → RemovesEntry ptr st.buffers.buffers o
      → Ensures (λ _ st' _. Removed st ptr st') (cleared o e st t)
  cleared-Removed ptr (some cs) live h = inl (live, h)
  cleared-Removed ptr none live h = inr (refl, inr h)

  -- Adding a buffer does not panic. As a bag of entries the table gains the new entry, and then the
  -- pointer is not NULL and the size is not 0, or it stays as it is, and then the pointer is NULL, the
  -- size is 0, or no slot is free.
  pub buffer_table_add-Added :
      (ptr size : ℕ) (btype : BufferType)
      → Ensures (λ _ st' _. Added st ptr size btype st') (buffer_table_add ptr size btype e st t)
  unfolding buffer_table_add
  buffer_table_add-Added ptr size btype = elim (Bool-cases (is_null ptr || (size == 0))) [
    | inl skipped ↦ ground arith
    | inr added ↦
        let done_ =
          filled-Added ptr size btype _ (ground arith)
            (fill_slot-AddsEntry (new_entry st ptr size btype) st.buffers.buffers refl) in
        simp added done_
  ]

  -- Removing a pointer does not panic. As a bag of entries the table loses one entry of the pointer,
  -- and then the pointer is not NULL, or it stays as it is, and then the pointer is NULL or has no
  -- entry.
  pub buffer_table_remove-Removed :
      (ptr : ℕ) → Ensures (λ _ st' _. Removed st ptr st') (buffer_table_remove ptr e st t)
  unfolding buffer_table_remove
  buffer_table_remove-Removed ptr = elim (Bool-cases (is_null ptr)) [
    | inl skipped ↦ ground arith
    | inr present ↦
        let removed =
          cleared-Removed ptr _ (ground arith) (clear_slot-RemovesEntry ptr st.buffers.buffers) in
        simp present removed
  ]
