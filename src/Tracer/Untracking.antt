-- ===== src/Tracer/Untracking.antt =====
-- crates/hip-buffer-tracer/src/lib.rs: a pointer that is added to the buffer table and removed again.
use hrx_system_rs.Base.{ℕ, ◌≡◌, ◌≢◌, refl, true, Option, none, some, List, [], ◌∷◌, arith}
use hrx_system_rs.Ffi.{Env, ◌>>◌}
use hrx_system_rs.Ffi.Ensures.{Ensures}
use hrx_system_rs.Tracer.{
  BufferType, TrackedBuffer, State, TracerCall, fill_slot, clear_slot, buffer_table_add,
  buffer_table_remove,
}
use hrx_system_rs.Tracer.Tables.{When, used}
use hrx_system_rs.Tracer.Tracking.{IsTracked, used-bounded}

abbrev pub PtrAbsent : ℕ → List TrackedBuffer → Type 0
PtrAbsent p [] = Unit {0}
PtrAbsent p (b ∷ bs) = When b.in_use (b.ptr ≢ p) × PtrAbsent p bs

module _ (new : TrackedBuffer) (is_used : new.in_use ≡ true) where
  abbrev ClearedTo : ℕ → Option (List TrackedBuffer) → Type 0
  ClearedTo n none = ⊥
  ClearedTo n (some ds) = (used ds ≡ n) × PtrAbsent new.ptr ds

  abbrev Undone : ℕ → Option (List TrackedBuffer) → Type 0
  Undone n none = Unit {0}
  Undone n (some cs) = ClearedTo n (clear_slot new.ptr cs)

  fill_slot-Undone :
      (bs : List TrackedBuffer) → PtrAbsent new.ptr bs → Undone (used bs) (fill_slot new bs)
  unfolding fill_slot clear_slot
  fill_slot-Undone [] a = tt
  fill_slot-Undone (b ∷ bs) a = ground (arith, fill_slot-Undone bs)

clear_slot-absent : (p : ℕ) (bs : List TrackedBuffer) → PtrAbsent p bs → clear_slot p bs ≡ none
unfolding clear_slot
clear_slot-absent p [] a = refl
clear_slot-absent p (b ∷ bs) a = ground (arith, clear_slot-absent p bs)

-- A pointer that is not tracked, when it is added and then removed, is not tracked again, and as many
-- buffers are counted as before. It holds for a full table and for sizes of 0, which track nothing.
pub add-remove-PtrAbsent :
    (e : Env TracerCall) (ptr size : ℕ) (btype : BufferType) (st : State) (t : List TracerCall)
    → IsTracked st
    → PtrAbsent ptr st.buffers.buffers
    → Ensures
        (λ _ st' _. (st'.buffers.count ≡ st.buffers.count) × PtrAbsent ptr st'.buffers.buffers)
        ((buffer_table_add ptr size btype >> buffer_table_remove ptr) e st t)
unfolding buffer_table_add buffer_table_remove
add-remove-PtrAbsent e ptr size btype st t tracked absent =
    let new : TrackedBuffer = record {
      ptr = ptr;
      size = size;
      btype = btype;
      in_use = true;
      alloc_id = st.buffers.next_alloc_id;
    } in
    ground (
      arith,
      used-bounded st.buffers.buffers,
      fill_slot-Undone new refl st.buffers.buffers absent,
      clear_slot-absent ptr st.buffers.buffers absent,
    )
