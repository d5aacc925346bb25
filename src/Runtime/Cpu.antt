-- ===== src/Runtime/Cpu.antt =====
-- crates/hrx-libhrx/src/runtime.rs: the CPU accelerator, over a local-task device.
use hrx_system_rs.Base.{
  ℕ, zero, suc, ◌+◌, Bool, true, false, none, some, List, [], ◌∷◌, Option, not, if◌then◌else◌, leb,
  get_elem?, ℤ, pos, negsuc,
}
use hrx_system_rs.Ffi.{HrxStatus, IreeStatus, pure, panic, ◌>>=◌, ◌>>◌, call, emit, get, modify}
use hrx_system_rs.Hal.{is_null}
use hrx_system_rs.Status.{HrxStatusCode, fail, from_iree, check_hrx}
use hrx_system_rs.Runtime.{
  AcceleratorState, Globals, R, accelerator_cpu, task_executor_create, task_executor_release,
  create_executable_loaders, executable_loader_release, allocator_create_heap, allocator_release,
  task_driver_create, driver_release, create_default_device, hal_device_release, hrx_device_release,
}
use hrx_system_rs.Runtime.Shared.{
  ensure_shared_state, release_shared_state, create_single_device_group, new_device,
}

-- `Ok((driver, hal_device))` or `Err(status)`.
pub data TaskDevice : Type 0 where
  made : ℕ → ℕ → TaskDevice
  refused : HrxStatus → TaskDevice

abbrev refuse : IreeStatus → R TaskDevice
refuse s = do status ← from_iree s; pure (refused status)

abbrev or_refuse : IreeStatus → R (Unit {0}) → R TaskDevice → R TaskDevice
or_refuse none cleanup rest = rest
or_refuse (some c) cleanup rest = do cleanup; refuse (some c)

-- The loaders of `count` slots from slot `i` on.
unfoldable pub release_loaders : ℕ → ℕ → R (Unit {0})
release_loaders zero i = pure tt
release_loaders (suc count) i = do emit (executable_loader_release i); release_loaders count (i + 1)

unfoldable pub create_local_task_device : ℕ → R TaskDevice
create_local_task_device group_count = do
  x ← call (task_executor_create group_count)
  or_refuse x.status (pure tt) do
    l ← call create_executable_loaders
    or_refuse l.status (emit (task_executor_release x.ptr)) do
      a ← call allocator_create_heap
      or_refuse a.status (do release_loaders l.num 0; emit (task_executor_release x.ptr))
          do
            d ← call (task_driver_create x.ptr l.num a.ptr)
            emit (task_executor_release x.ptr)
            release_loaders l.num 0
            emit (allocator_release a.ptr)
            or_refuse d.status (pure tt) do
              g ← get
              v ← call (create_default_device d.ptr g.shared.proactor_pool)
              or_refuse v.status (emit (driver_release d.ptr)) (pure (made d.ptr v.ptr))

abbrev pub set_cpu : (AcceleratorState → AcceleratorState) → Globals → Globals
set_cpu f g = record g { cpu = f g.cpu }

abbrev pub grouped : ℕ → ℕ → IreeStatus × ℕ → R HrxStatus
grouped driver hal_device (some c, group) = do
  emit (hal_device_release hal_device)
  emit (driver_release driver)
  release_shared_state
  from_iree (some c)
grouped driver hal_device (none, group) = do
  dev ← new_device accelerator_cpu 0 hal_device group
  modify (
      set_cpu
        λ c. record c { devices = dev ∷ []; driver = driver; device_count = 1; initialized = true })
  pure none

abbrev pub with_device : TaskDevice → R HrxStatus
with_device (refused status) = do release_shared_state; pure status
with_device (made driver hal_device) = do
  r ← create_single_device_group hal_device
  grouped driver hal_device r

unfoldable pub hrx_cpu_initialize : R HrxStatus
hrx_cpu_initialize = do
  g ← get
  if g.cpu.initialized
      then fail HrxStatusCode.already_exists "CPU accelerator already initialized"
      else do s ← ensure_shared_state; check_hrx s do d ← create_local_task_device 4; with_device d

unfoldable pub release_devices : List ℕ → R (Unit {0})
release_devices [] = pure tt
release_devices (d ∷ ds) = do emit (hrx_device_release d); release_devices ds

abbrev pub release_driver : ℕ → R (Unit {0})
release_driver p = if is_null p then pure tt else emit (driver_release p)

-- The driver pointer is reset with the driver's release, the rest of the state after it.
abbrev pub close_cpu : ℕ → R HrxStatus
close_cpu driver = do
  release_driver driver
  modify (set_cpu λ c. record { devices = []; driver = 0; device_count = 0; initialized = false })
  release_shared_state
  pure none

unfoldable pub hrx_cpu_shutdown : R HrxStatus
hrx_cpu_shutdown = do
  g ← get
  if not g.cpu.initialized
      then fail HrxStatusCode.invalid_argument "CPU accelerator not initialized"
      else do release_devices g.cpu.devices; close_cpu g.cpu.driver

-- The value of `*count`, when it is written, stands beside the status.
unfoldable pub hrx_cpu_device_count : ℕ → R (HrxStatus × Option ℕ)
hrx_cpu_device_count count =
    if is_null count
    then (do status ← fail HrxStatusCode.invalid_argument "count is NULL"; pure (status, none))
    else do
      g ← get
      if not g.cpu.initialized
          then (do
            status ← fail HrxStatusCode.unavailable "CPU accelerator not initialized"
            pure (status, none))
          else pure (none, some g.cpu.device_count)

-- `devices[index]`, which panics out of range.
abbrev pub indexed : Option ℕ → R (HrxStatus × Option ℕ)
indexed none = panic
indexed (some d) = pure (none, some d)

abbrev pub is_outside : ℤ → ℕ → Bool
is_outside (pos i) count = leb count i
is_outside (negsuc i) count = true

abbrev pub as_index : ℤ → ℕ
as_index (pos i) = i
as_index (negsuc i) = 0

-- The value of `*device`, when it is written, stands beside the status.
unfoldable pub hrx_cpu_device_get : ℤ → ℕ → R (HrxStatus × Option ℕ)
hrx_cpu_device_get index device =
    if is_null device
    then (do status ← fail HrxStatusCode.invalid_argument "device is NULL"; pure (status, none))
    else do
      g ← get
      if not g.cpu.initialized
          then (do
            status ← fail HrxStatusCode.unavailable "CPU accelerator not initialized"
            pure (status, none))
          else if is_outside index g.cpu.device_count
          then (do
            status ← fail HrxStatusCode.out_of_range "CPU device index out of range"
            pure (status, none))
          else indexed (get_elem? g.cpu.devices (as_index index))
