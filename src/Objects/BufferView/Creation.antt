-- ===== src/Objects/BufferView/Creation.antt =====
-- crates/hrx-libhrx/src/buffer_view.rs: the creation of a view, over the conversion of its dimensions.
use hrx_system_rs.Base.{
  ℕ, ◌≡◌, ◌≢◌, refl, ◌&&◌, ltb, true, Bool, Option, none, some, List, [], ◌∷◌, length, ℤ, arith,
  false,
}
use hrx_system_rs.Ffi.{Env, HrxStatus, IreeStatus, done}
use hrx_system_rs.Hal.{is_null}
use hrx_system_rs.Ffi.Ensures.{Ensures}
use hrx_system_rs.Ffi.Kinds.{when_ok}
use hrx_system_rs.Status.{hrx_status_from_iree, hrx_make_status, hrx_status_code}
use hrx_system_rs.Objects.{ObjectCall, buffer_view_create}
use hrx_system_rs.Objects.BufferView.{
  Converted, converted, negative, outside, to_iree_shape, made, create_with, hrx_buffer_view_create,
}
use hrx_system_rs.Objects.BufferView.Convert.{unsigned, take, Fills, to_iree_shape-Fills}

null_false : (p : ℕ) → p ≢ 0 → is_null p ≡ false
null_false p h = ground arith

and-false : (b : Bool) → (b && false) ≡ false
and-false true = refl
and-false false = refl

-- What the creation of a view does, by the shape that was asked for.
abbrev pub Asks :
    Env ObjectCall
    → List ObjectCall
    → (ℕ → List ℕ → ObjectCall)
    → ℕ
    → Option (List ℕ)
    → HrxStatus × Option ℕ
    → List ObjectCall
    → Type 0
Asks e t create rank none r t' = (t' ≡ t) × (hrx_status_code r.0 ≡ 3) × (r.1 ≡ none)
Asks e t create rank (some ds) r t' =
    (shape : List ℕ) × (take rank shape ≡ ds)
    × (t' ≡ create rank shape ∷ t)
    × (r.0 ≡ hrx_status_from_iree e t' (e.reply t').status)
    × (r.1 ≡ when_ok (e.reply t').status (e.reply t').ptr)

module _ (e : Env ObjectCall) {S : Type 0} (s : S) (t : List ObjectCall) (hal element encoding : ℕ)
    (room : e.malloc_fails t ≡ false)
    (makes : (rank : ℕ) (shape : List ℕ)
      → (e.reply (buffer_view_create hal rank shape element encoding ∷ t)).status ≡ none
      → (e.reply (buffer_view_create hal rank shape element encoding ∷ t)).ptr ≢ 0) where
  abbrev create : ℕ → List ℕ → ObjectCall
  create rank shape = buffer_view_create hal rank shape element encoding

  made_lem :
      (status : IreeStatus) (p : ℕ) (t' : List ObjectCall)
      → (status ≡ none → p ≢ 0)
      → made status p e s t' ≡ done (hrx_status_from_iree e t' status, when_ok status p) s t'
  unfolding hrx_status_from_iree
  made_lem none p t' h = ground (arith, h refl)
  made_lem (some c) p t' h = refl

  create_with-Asks :
      (rank : ℕ) (o : Option (List ℕ)) (c : Converted)
      → Fills rank [] o c
      → Ensures
          (λ r _ t'. Asks e t create rank o r t')
          (create_with hal rank c element encoding e s t)
  unfolding hrx_make_status hrx_status_code
  create_with-Asks rank none c h = rw (h, create_with) (ground arith)
  create_with-Asks rank (some ds) (converted shape) h =
      rw (made_lem _ _ (create rank shape ∷ t) (makes rank shape)) (shape, h, refl, refl, refl)
  create_with-Asks rank (some ds) negative h = absurd h
  create_with-Asks rank (some ds) outside h = absurd h

-- The creation of a view with as many dimensions as the rank says, and with handles and a shape that are
-- not NULL, never faults. If no dimension is negative it asks IREE once for a view whose shape begins
-- with all of them in order, and gives what IREE answers; otherwise it makes no call and reports an
-- invalid argument. It is the same for the array on the stack and the one on the heap. The payload
-- allocation does not fail, and a successful creation makes a view.
pub hrx_buffer_view_create-Asks :
    (buffer_hal : ℕ → ℕ) (e : Env ObjectCall) {S : Type 0} (s : S) (t : List ObjectCall)
    (buffer p element encoding buffer_view : ℕ) (dims : List ℤ)
    → buffer ≢ 0
    → buffer_view ≢ 0
    → p ≢ 0
    → e.malloc_fails t ≡ false
    → ((rank : ℕ) (shape : List ℕ)
        → (e.reply (buffer_view_create (buffer_hal buffer) rank shape element encoding ∷ t)).status
          ≡ none
        → (e.reply (buffer_view_create (buffer_hal buffer) rank shape element encoding ∷ t)).ptr
          ≢ 0)
    → Ensures
        (λ r _ t'.
          Asks e t
            (λ rank shape. buffer_view_create (buffer_hal buffer) rank shape element encoding)
            (length dims)
            (unsigned dims)
            r
            t')
        (hrx_buffer_view_create buffer_hal buffer
          (length dims)
          (record { ptr = p; dims = dims })
          element
          encoding
          buffer_view
          e
          s
          t)
unfolding hrx_buffer_view_create
hrx_buffer_view_create-Asks buffer_hal e s t buffer p element encoding buffer_view dims nb nv np
      room makes =
    rw
      (
        null_false buffer nb,
        null_false buffer_view nv,
        null_false p np,
        and-false (ltb 0 (length dims)),
      )
      (create_with-Asks e s t (buffer_hal buffer) element encoding room makes (length dims)
        (unsigned dims) (to_iree_shape (length dims) dims) (to_iree_shape-Fills dims))
