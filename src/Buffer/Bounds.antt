-- ===== src/Buffer/Bounds.antt =====
-- crates/hrx-libhrx/src/buffer.rs: the bounds of a transfer, and the device pointer.
use hrx_system_rs.Base.{
  ℕ, ◌+◌, ◌^◌, ◌≤◌, ◌<◌, ◌≡◌, ◌≢◌, false, Option, none, some, List, [], ◌∷◌, arith,
}
use hrx_system_rs.Ffi.{Env, HrxStatus}
use hrx_system_rs.Ffi.Ensures.{Ensures}
use hrx_system_rs.Status.{hrx_make_status}
use hrx_system_rs.Buffer.{
  BufferCall, device_transfer_h2d, device_transfer_d2h, Arc, hrx_buffer_get_device_ptr,
}
use hrx_system_rs.Buffer.Transfer.{hrx_synchronous_h2d, hrx_synchronous_d2h}

-- A transfer reads or writes bytes of the buffer only.
abbrev InBounds : ℕ → BufferCall → Type 0
InBounds size (device_transfer_h2d device p b offset n) = offset + n ≤ size
InBounds size (device_transfer_d2h device p b offset n) = offset + n ≤ size
InBounds size _ = Unit {0}

abbrev pub AllInBounds : ℕ → List BufferCall → Type 0
AllInBounds size [] = Unit {0}
AllInBounds size (c ∷ t) = InBounds size c × AllInBounds size t

module _ (hal_device : ℕ → ℕ) (e : Env BufferCall) (device p buffer offset n : ℕ) (a : Arc)
    (t : List BufferCall) where
  -- A copy to a live buffer changes no state, and the bytes that it asks IREE to write lie in the
  -- buffer, when the end of the range does not overflow a `usize`.
  pub hrx_synchronous_h2d-bounds :
      a.strong ≢ 0
      → offset + n < 2 ^ 64
      → AllInBounds a.inner.size t
      → Ensures
          (λ _ a' t'. (a' ≡ a) × AllInBounds a.inner.size t')
          (hrx_synchronous_h2d hal_device device p buffer offset n e a t)
  unfolding hrx_synchronous_h2d
  hrx_synchronous_h2d-bounds live small h = ground arith

  -- As above for a copy from a live buffer.
  pub hrx_synchronous_d2h-bounds :
      a.strong ≢ 0
      → offset + n < 2 ^ 64
      → AllInBounds a.inner.size t
      → Ensures
          (λ _ a' t'. (a' ≡ a) × AllInBounds a.inner.size t')
          (hrx_synchronous_d2h hal_device device buffer offset p n e a t)
  unfolding hrx_synchronous_d2h
  hrx_synchronous_d2h-bounds live small h = ground arith

  -- A copy to a live buffer, or from one, changes no state, and the bytes that it asks IREE to write
  -- or to read lie in the buffer, when the end of the range does not overflow a `usize`.
  pub transfer-bounds :
      a.strong ≢ 0
      → offset + n < 2 ^ 64
      → AllInBounds a.inner.size t
      → Ensures
          (λ _ a' t'. (a' ≡ a) × AllInBounds a.inner.size t')
          (hrx_synchronous_h2d hal_device device p buffer offset n e a t)
        × Ensures
            (λ _ a' t'. (a' ≡ a) × AllInBounds a.inner.size t')
            (hrx_synchronous_d2h hal_device device buffer offset p n e a t)
  transfer-bounds live small h =
      (hrx_synchronous_h2d-bounds live small h, hrx_synchronous_d2h-bounds live small h)

  -- Without that bound the check can be passed by a range that ends outside the buffer: whenever the
  -- end overflows a `usize`, and what is left of it fits the buffer, the copy is submitted.
  pub hrx_synchronous_h2d-overflow :
      a.strong ≢ 0
      → device ≢ 0
      → p ≢ 0
      → buffer ≢ 0
      → 2 ^ 64 ≤ offset + n
      → offset + n < 2 ^ 64 + 2 ^ 64
      → offset + n ≤ 2 ^ 64 + a.inner.size
      → a.inner.size < 2 ^ 64
      → Ensures
          (λ _ a' t'.
            (t' ≡ device_transfer_h2d (hal_device device) p a.inner.hal_buffer offset n ∷ t)
            × (a.inner.size < offset + n))
          (hrx_synchronous_h2d hal_device device p buffer offset n e a t)
  unfolding hrx_synchronous_h2d
  hrx_synchronous_h2d-overflow live d q b over word fits small = ground arith

abbrev pub Again :
    HrxStatus × Option ℕ
    → Arc
    → List BufferCall
    → HrxStatus × Option ℕ
    → Arc
    → List BufferCall
    → Type 0
Again (none, p) a t r a' t' = (r ≡ (none, p)) × (a' ≡ a) × (t' ≡ t)
Again (some s, p) a t r a' t' = Unit {0}

-- A device pointer that was given out with success is given out again by the next call, which makes
-- no call into IREE and leaves the buffer as it is. Payload allocations must not fail.
pub hrx_buffer_get_device_ptr-Again :
    (e : Env BufferCall) (buffer device_ptr : ℕ) (a : Arc) (t : List BufferCall)
    → ((u : List BufferCall) → e.malloc_fails u ≡ false)
    → a.strong ≢ 0
    → Ensures
        (λ first a' t'.
          Ensures (Again first a' t') (hrx_buffer_get_device_ptr buffer device_ptr e a' t'))
        (hrx_buffer_get_device_ptr buffer device_ptr e a t)
unfolding hrx_buffer_get_device_ptr hrx_make_status
hrx_buffer_get_device_ptr-Again e buffer device_ptr a t rich live = grind (arith, rich)
