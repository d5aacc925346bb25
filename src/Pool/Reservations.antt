-- ===== src/Pool/Reservations.antt =====
-- crates/hrx-libhrx/src/pool.rs: the references on the buffers behind an exact pool's reservations.
use hrx_system_rs.Base.{ℕ, ◌≡◌, ◌≢◌, Option, none, some, List, ◌∷◌, if◌then◌else◌, arith}
use hrx_system_rs.Ffi.{Env, Reply, IreeStatus, M, pure, ◌>>=◌, ◌>>◌}
use hrx_system_rs.Ffi.Ensures.{Ensures}
use hrx_system_rs.Hal.{
  HalCall, HalBufferParams, allocate_buffer, buffer_ref_retain, buffer_ref_release,
}
use hrx_system_rs.Ffi.Kinds.{Kind, held, when_ok}
use hrx_system_rs.Pool.{
  HrxExactPool, PoolReservation, transfers, pool_acquire_reservation, pool_release_reservation,
  pool_materialize_reservation,
}

abbrev opens_buffer : HalCall → Reply → Option ℕ
opens_buffer (allocate_buffer a p n) r = when_ok r.status r.ptr
opens_buffer (buffer_ref_retain b) r = some b
opens_buffer _ r = none

abbrev closes_buffer : HalCall → Option ℕ
closes_buffer (buffer_ref_release b) = some b
closes_buffer _ = none

-- The references on buffers, one entry for each.
abbrev pub buffer_refs : Kind HalCall
buffer_refs = record { opens = opens_buffer; closes = closes_buffer }

module _ {S : Type 0} (pool : HrxExactPool) (params : HalBufferParams) (flags : ℕ) where
  abbrev pub settle : PoolReservation → IreeStatus × ℕ → M HalCall S (Option ℕ)
  settle reservation (some c, buffer) = do pool_release_reservation pool reservation; pure none
  settle reservation (none, buffer) =
      if transfers flags
      then pure (some buffer)
      else do pool_release_reservation pool reservation; pure (some buffer)

  abbrev pub materialized : IreeStatus × Option PoolReservation → M HalCall S (Option ℕ)
  materialized (status, none) = pure none
  materialized (status, some reservation) = do
    r ← pool_materialize_reservation pool params reservation flags
    settle reservation r

  -- How IREE uses a pool: it acquires a reservation, makes a buffer of it, and releases the
  -- reservation unless the buffer took it over.
  abbrev pub allocate_once : ℕ → M HalCall S (Option ℕ)
  allocate_once size = do r ← pool_acquire_reservation pool size; materialized r

abbrev pub with_buffer : Option ℕ → List ℕ → List ℕ
with_buffer none bs = bs
with_buffer (some b) bs = b ∷ bs

-- An allocation that succeeds gives a buffer, as IREE documents.
abbrev pub AllocatesBuffers : Env HalCall → Type 0
AllocatesBuffers e =
    (a : ℕ) (p : HalBufferParams) (n : ℕ) (t : List HalCall)
    → (e.reply (allocate_buffer a p n ∷ t)).status ≡ none
    → (e.reply (allocate_buffer a p n ∷ t)).ptr ≢ 0

-- After one use of a pool there is one more reference, on the buffer that was made, if one was made,
-- and no other: whether the buffer takes the reservation over or not, and whichever step fails.
pub allocate_once-held :
    (e : Env HalCall) {S : Type 0} (s : S) (t : List HalCall) (pool : HrxExactPool)
    (params : HalBufferParams) (flags size : ℕ) (bs : List ℕ)
    → AllocatesBuffers e
    → held buffer_refs e t ≡ some bs
    → Ensures
        (λ made _ t'. held buffer_refs e t' ≡ some (with_buffer made bs))
        (allocate_once pool params flags size e s t)
unfolding pool_acquire_reservation pool_materialize_reservation pool_release_reservation
allocate_once-held e s t pool params flags size bs allocates before =
    ground (arith, allocates pool.allocator pool.params size t)
