-- ===== src/Pool/Lifetime.antt =====
-- crates/hrx-libhrx/src/pool.rs: the creation and the destruction of an exact pool.
use hrx_system_rs.Base.{ℕ, ◌≡◌, Option, none, some, List, arith}
use hrx_system_rs.Ffi.{Env, Reply, IreeStatus, M, pure, ◌>>=◌}
use hrx_system_rs.Ffi.Ensures.{Ensures}
use hrx_system_rs.Hal.{
  HalCall, HalBufferParams, notification_create, notification_release, hal_allocator_retain,
  hal_allocator_release, host_malloc, host_free,
}
use hrx_system_rs.Ffi.Kinds.{Kind, held, when_ok}
use hrx_system_rs.Pool.{HrxExactPool, pool_destroy, hrx_iree_exact_pool_create}

abbrev opens_memory : HalCall → Reply → Option ℕ
opens_memory (host_malloc n) r = when_ok r.status r.ptr
opens_memory _ r = none

abbrev closes_memory : HalCall → Option ℕ
closes_memory (host_free p) = some p
closes_memory _ = none

abbrev pub memory : Kind HalCall
memory = record { opens = opens_memory; closes = closes_memory }

abbrev opens_allocator : HalCall → Reply → Option ℕ
opens_allocator (hal_allocator_retain a) r = some a
opens_allocator _ r = none

abbrev closes_allocator : HalCall → Option ℕ
closes_allocator (hal_allocator_release a) = some a
closes_allocator _ = none

abbrev pub allocator_refs : Kind HalCall
allocator_refs = record { opens = opens_allocator; closes = closes_allocator }

abbrev opens_notification : HalCall → Reply → Option ℕ
opens_notification (notification_create p) r = when_ok r.status r.ptr
opens_notification _ r = none

abbrev closes_notification : HalCall → Option ℕ
closes_notification (notification_release n) = some n
closes_notification _ = none

abbrev pub notifications : Kind HalCall
notifications = record { opens = opens_notification; closes = closes_notification }

module _ {S : Type 0} where
  -- The caller drops the pool that it was given, whose count then is 0.
  abbrev pub destroy_if_made : IreeStatus × Option HrxExactPool → M HalCall S (Unit {0})
  destroy_if_made (status, none) = pure tt
  destroy_if_made (status, some pool) = pool_destroy pool

-- When a new pool is destroyed again, or when its creation fails, the memory, the references on the
-- allocator and the notifications that are held are those held before.
pub create-destroy-held :
    (e : Env HalCall) {S : Type 0} (s : S) (t : List HalCall) (proactor_pool allocator : ℕ)
    (params : HalBufferParams) (blocks refs signals : List ℕ)
    → held memory e t ≡ some blocks
    → held allocator_refs e t ≡ some refs
    → held notifications e t ≡ some signals
    → Ensures
        (λ _ _ t'.
          (held memory e t' ≡ some blocks)
          × (held allocator_refs e t' ≡ some refs)
          × (held notifications e t' ≡ some signals))
        ((hrx_iree_exact_pool_create proactor_pool allocator params >>= destroy_if_made) e s t)
unfolding hrx_iree_exact_pool_create pool_destroy
create-destroy-held e s t proactor_pool allocator params blocks refs signals h1 h2 h3 = ground arith
