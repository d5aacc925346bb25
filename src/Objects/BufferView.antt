-- ===== src/Objects/BufferView.antt =====
-- crates/hrx-libhrx/src/buffer_view.rs: a view of a buffer with a shape. The shape is read through a
-- pointer, and converted into an array on the stack for up to 8 dimensions and on the heap for more.
pub mod Convert
pub mod Creation
use hrx_system_rs.Base.{
  ℕ, zero, suc, ◌+◌, ◌&&◌, ◌||◌, Option, none, some, List, [], ◌∷◌, ◌++◌, ltb, leb, true, false,
  if◌then◌else◌, get_elem?, set, replicate, length, String, ℤ, pos, negsuc, as_i64,
}
use hrx_system_rs.Ffi.{HrxStatus, IreeStatus, pure, panic, ◌>>=◌, call, get}
use hrx_system_rs.Hal.{is_null}
use hrx_system_rs.Status.{HrxStatusCode, fail, from_iree}
use hrx_system_rs.Objects.{O, buffer_view_create, view_rank, view_dim}

-- The caller's pointer, and the numbers that can be read behind it.
pub record Shape : Type 0 where
  pub ptr : ℕ
  pub dims : List ℤ

-- The array that was filled, a negative dimension, or an access outside an array.
pub data Converted : Type 0 where
  converted : List ℕ → Converted
  negative outside : Converted

-- `for i in 0..shape_rank` with `heap_shape.push`; `rounds` is the number of rounds left.
unfoldable pub heap_loop : ℕ → ℕ → List ℤ → List ℕ → Converted
heap_loop zero i dims filled = converted filled
heap_loop (suc rounds) i dims filled = elim (get_elem? dims i) [
  | none ↦ outside
  | some (pos d) ↦ heap_loop rounds (i + 1) dims (filled ++ d ∷ [])
  | some (negsuc d) ↦ negative
]

-- The same with `stack_shape[i] = ..`, which is inside the array or panics.
unfoldable pub stack_loop : ℕ → ℕ → List ℤ → List ℕ → Converted
stack_loop zero i dims filled = converted filled
stack_loop (suc rounds) i dims filled = elim (get_elem? dims i) [
  | none ↦ outside
  | some (pos d) ↦ elim (ltb i (length filled)) [
    | true ↦ stack_loop rounds (i + 1) dims (set filled i d)
    | false ↦ outside
  ]
  | some (negsuc d) ↦ negative
]

abbrev stack_shape : List ℕ
stack_shape = replicate 8 0

unfoldable pub to_iree_shape : ℕ → List ℤ → Converted
unfolding heap_loop stack_loop
to_iree_shape rank dims =
    if ltb 8 rank then heap_loop rank 0 dims [] else stack_loop rank 0 dims stack_shape

module _ {S : Type 0} where
  -- A status, and the IREE view behind `*buffer_view` when there is one.
  abbrev refuse : {A : Type 0} → String → O S (HrxStatus × Option A)
  refuse message = do status ← fail HrxStatusCode.invalid_argument message; pure (status, none)

  abbrev pub made : IreeStatus → ℕ → O S (HrxStatus × Option ℕ)
  made none hal = if is_null hal then panic else pure (none, some hal)
  made (some c) hal = do status ← from_iree (some c); pure (status, none)

  abbrev pub create_with : ℕ → ℕ → Converted → ℕ → ℕ → O S (HrxStatus × Option ℕ)
  create_with hal rank outside element encoding = panic
  create_with hal rank negative element encoding = refuse "shape dimensions must be non-negative"
  create_with hal rank (converted shape) element encoding = do
    r ← call (buffer_view_create hal rank shape element encoding)
    made r.status r.ptr

  unfoldable pub hrx_buffer_view_create :
      (ℕ → ℕ) → ℕ → ℕ → Shape → ℕ → ℕ → ℕ → O S (HrxStatus × Option ℕ)
  hrx_buffer_view_create buffer_hal buffer shape_rank shape element_type encoding_type buffer_view =
      if is_null buffer || is_null buffer_view
      then refuse "buffer or buffer_view is NULL"
      else if ltb 0 shape_rank && is_null shape.ptr
      then refuse "shape is NULL for non-zero rank"
      else create_with (buffer_hal buffer) shape_rank (to_iree_shape shape_rank shape.dims)
          element_type encoding_type

-- The state of the queries is the IREE view behind a live handle.
unfoldable pub hrx_buffer_view_rank : ℕ → ℕ → O ℕ (HrxStatus × Option ℕ)
hrx_buffer_view_rank buffer_view rank =
    if is_null buffer_view || is_null rank
    then refuse "buffer_view or rank is NULL"
    else do hal ← get; r ← call (view_rank hal); pure (none, some r.num)

unfoldable pub hrx_buffer_view_dim : ℕ → ℕ → ℕ → O ℕ (HrxStatus × Option ℤ)
hrx_buffer_view_dim buffer_view dim value =
    if is_null buffer_view || is_null value then refuse "buffer_view or value is NULL" else do
      hal ← get
      r ← call (view_rank hal)
      if leb r.num dim
          then (do
            status ← fail HrxStatusCode.out_of_range "buffer_view dim out of range"
            pure (status, none))
          else do d ← call (view_dim hal dim); pure (none, some (as_i64 d.num))
