-- ===== src/Runtime/Shared.antt =====
-- crates/hrx-libhrx/src/runtime.rs: the shared state, created by the first accelerator and released
-- with the last one. `init_count` is an `i32` that is positive while the state is initialised, so a
-- subtraction that stops at 0 takes the same branches.
use hrx_system_rs.Base.{ℕ, ◌+◌, ◌-◌, true, false, not, none, some, ltb, if◌then◌else◌}
use hrx_system_rs.Ffi.{HrxStatus, IreeStatus, pure, panic, ◌>>=◌, ◌>>◌, call, emit, get, modify}
use hrx_system_rs.Hal.{is_null}
use hrx_system_rs.Status.{from_iree, check}
use hrx_system_rs.Runtime.{
  R, set_shared, vm_instance_create, proactor_pool_create, register_all_types, vm_instance_release,
  proactor_pool_release, frontier_tracker_create, frontier_tracker_release, device_group_create,
  device_new, device_allocator, allocator_retain,
}

-- The instance is released again before the error is reported.
abbrev check_instance : ℕ → IreeStatus → R HrxStatus → R HrxStatus
check_instance inst none rest = rest
check_instance inst (some c) rest = do emit (vm_instance_release inst); from_iree (some c)

-- As above, after the instance has been stored.
abbrev check_stored : ℕ → IreeStatus → R HrxStatus → R HrxStatus
check_stored inst none rest = rest
check_stored inst (some c) rest = do
  emit (vm_instance_release inst)
  modify (set_shared λ s. record s { vm_instance = 0 })
  from_iree (some c)

unfoldable pub ensure_shared_state : R HrxStatus
ensure_shared_state = do
  g ← get
  if g.shared.initialized
      then (do modify (set_shared λ s. record s { init_count = s.init_count + 1 }); pure none)
      else do
        i ← call vm_instance_create
        check i.status do
          r ← call (register_all_types i.ptr)
          check_instance i.ptr r.status do
            modify (set_shared λ s. record s { vm_instance = i.ptr })
            p ← call proactor_pool_create
            check_stored i.ptr p.status do
              modify (set_shared λ s. record s { proactor_pool = p.ptr })
              modify (set_shared λ s. record s { initialized = true; init_count = 1 })
              pure none

abbrev release_pool : ℕ → R (Unit {0})
release_pool p =
    if is_null p
    then pure tt
    else do emit (proactor_pool_release p); modify (set_shared λ s. record s { proactor_pool = 0 })

abbrev release_instance : ℕ → R (Unit {0})
release_instance i =
    if is_null i
    then pure tt
    else do emit (vm_instance_release i); modify (set_shared λ s. record s { vm_instance = 0 })

unfoldable pub release_shared_state : R (Unit {0})
release_shared_state = do
  g ← get
  if not g.shared.initialized then pure tt else do
    modify (set_shared λ s. record s { init_count = s.init_count - 1 })
    c ← get
    if ltb 0 c.shared.init_count then pure tt else do
      release_pool c.shared.proactor_pool
      release_instance c.shared.vm_instance
      modify (set_shared λ s. record s { initialized = false })

abbrev tracked : ℕ → ℕ → IreeStatus → R (IreeStatus × ℕ)
tracked device tracker (some c) = pure (some c, 0)
tracked device tracker none = do
  d ← call (device_group_create device tracker)
  emit (frontier_tracker_release tracker)
  pure (d.status, d.ptr)

-- The status, and the group when it is made.
unfoldable pub create_single_device_group : ℕ → R (IreeStatus × ℕ)
create_single_device_group device = do
  k ← call frontier_tracker_create
  tracked device k.ptr k.status

-- The device handle around the HAL device: `from_owned(..).expect(..)` of each part.
unfoldable pub new_device : ℕ → ℕ → ℕ → ℕ → R ℕ
new_device accelerator ordinal hal_device group = do
  a ← call (device_allocator hal_device)
  emit (allocator_retain a.ptr)
  if is_null hal_device
      then panic
      else if is_null group
      then panic
      else if is_null a.ptr
      then panic
      else do d ← call (device_new accelerator ordinal hal_device group a.ptr); pure d.ptr
