-- ===== src/Runtime/Gpu.antt =====
-- crates/hrx-libhrx/src/runtime.rs: the GPU accelerator, over the amdgpu driver. The array that the
-- driver reports its devices in is a parameter, a function of the trace like every answer.
use hrx_system_rs.Base.{
  ℕ, suc, ◌+◌, true, false, none, some, List, [], ◌∷◌, ◌++◌, Option, ◌==◌, not, if◌then◌else◌, ltb,
  length, get_elem?, ℤ,
}
use Prim.Native.Nat.{min}
use hrx_system_rs.Ffi.{HrxStatus, IreeStatus, pure, ◌>>=◌, ◌>>◌, call, emit, get, modify}
use hrx_system_rs.Hal.{is_null}
use hrx_system_rs.Status.{HrxStatusCode, fail, from_iree, check_hrx}
use hrx_system_rs.Runtime.{
  AcceleratorState, Globals, DeviceInfo, RuntimeCall, R, accelerator_gpu, hrx_max_devices,
  amdgpu_driver_module_register, registry_try_create, query_available_devices, free_infos,
  create_device_by_ordinal, query_gfxip, driver_release, hal_device_release,
}
use hrx_system_rs.Runtime.Shared.{
  ensure_shared_state, release_shared_state, create_single_device_group, new_device,
}
use hrx_system_rs.Runtime.Cpu.{release_devices, release_driver, indexed, is_outside, as_index}

abbrev pub set_gpu : (AcceleratorState → AcceleratorState) → Globals → Globals
set_gpu f g = record g { gpu = f g.gpu }

unfoldable pub physical_count : List DeviceInfo → ℕ
physical_count [] = 0
physical_count (x ∷ xs) = if x.path_size == 0 then physical_count xs else suc (physical_count xs)

-- Give up: the devices made so far, the array and the driver go, then the shared state.
abbrev pub abandon : List ℕ → ℕ → ℕ → R (Unit {0})
abandon devices infos driver = do
  release_devices devices
  emit (free_infos infos)
  emit (driver_release driver)
  release_shared_state

-- The devices and their number, or the status with which the initialisation returns.
pub data GpuDevices : Type 0 where
  ready : List ℕ → ℕ → GpuDevices
  stopped : HrxStatus → GpuDevices

-- One round of the loop, up to the new device handle.
pub data OneDevice : Type 0 where
  one : ℕ → OneDevice
  no_device : HrxStatus → OneDevice

abbrev pub grouped : List ℕ → ℕ → ℕ → ℕ → IreeStatus × ℕ → R OneDevice
grouped devices infos driver hal_device (some c, group) = do
  emit (hal_device_release hal_device)
  abandon devices infos driver
  s ← from_iree (some c)
  pure (no_device s)
grouped devices infos driver hal_device (none, group) = do
  emit (query_gfxip hal_device)
  pure (one group)

abbrev pub finish : ℕ → ℕ → OneDevice → R OneDevice
finish created hal_device (no_device s) = pure (no_device s)
finish created hal_device (one group) = do
  d ← new_device accelerator_gpu created hal_device group
  pure (one d)

abbrev pub opened : ℕ → List ℕ → ℕ → ℕ → ℕ → IreeStatus → R OneDevice
opened created devices infos driver hal_device (some c) = do
  abandon devices infos driver
  s ← from_iree (some c)
  pure (no_device s)
opened created devices infos driver hal_device none = do
  r ← create_single_device_group hal_device
  g ← grouped devices infos driver hal_device r
  finish created hal_device g

unfoldable pub create_one : ℕ → ℕ → List ℕ → ℕ → ℕ → ℕ → R OneDevice
create_one created index devices infos driver pool = do
  d ← call (create_device_by_ordinal driver index pool)
  opened created devices infos driver d.ptr d.status

abbrev pub next_round : (ℕ → R GpuDevices) → OneDevice → R GpuDevices
next_round rest (no_device s) = pure (stopped s)
next_round rest (one d) = rest d

-- `while info_index < info_count && created < count`, over the rest of the array.
unfoldable pub create_devices : ℕ → ℕ → ℕ → ℕ → List DeviceInfo → ℕ → ℕ → List ℕ → R GpuDevices
create_devices count infos driver pool [] index created devices = pure (ready devices created)
create_devices count infos driver pool (x ∷ xs) index created devices =
    let skip = create_devices count infos driver pool xs (index + 1) created devices in
    if not (ltb created count)
    then pure (ready devices created)
    else if x.path_size == 0
    then skip
    else do
      d ← create_one created index devices infos driver pool
      next_round
          (λ dev.
            create_devices count infos driver pool xs (index + 1) (created + 1)
              (devices ++ dev ∷ []))
          d

abbrev pub installed : ℕ → ℕ → GpuDevices → R HrxStatus
installed infos driver (stopped s) = pure s
installed infos driver (ready devices created) = do
  emit (free_infos infos)
  modify (
      set_gpu λ g. record {
        devices = devices;
        device_count = created;
        initialized = true;
        driver = driver;
      })
  pure none

abbrev pub no_devices : ℕ → ℕ → R HrxStatus → R HrxStatus
no_devices infos driver report = do
  emit (free_infos infos)
  emit (driver_release driver)
  release_shared_state
  report

abbrev pub or_release : IreeStatus → R (Unit {0}) → R HrxStatus → R HrxStatus
or_release none cleanup rest = rest
or_release (some c) cleanup rest = do cleanup; release_shared_state; from_iree (some c)

-- The driver module may be registered already: IREE's ALREADY_EXISTS is 6.
abbrev pub registered : IreeStatus → R HrxStatus → R HrxStatus
registered none rest = rest
registered (some c) rest = if c == 6 then rest else do release_shared_state; from_iree (some c)

module _ (reported : List RuntimeCall → List DeviceInfo) where
  abbrev pub enumerate : ℕ → R HrxStatus
  enumerate driver = do
    q ← call (query_available_devices driver)
    or_release q.status (emit (driver_release driver)) λ e g t.
        let xs = reported t in
        let physical = physical_count xs in
        (if length xs == 0
            then no_devices q.ptr driver (fail HrxStatusCode.unavailable "no GPU devices found")
            else if physical == 0
            then no_devices q.ptr driver
                (fail HrxStatusCode.unavailable "no physical GPU devices found")
            else do
              d ←
                  create_devices (min physical hrx_max_devices) q.ptr driver g.shared.proactor_pool
                    xs 0 0 []
              installed q.ptr driver d)
          e g t

  unfoldable pub hrx_gpu_initialize : R HrxStatus
  hrx_gpu_initialize = do
    g ← get
    if g.gpu.initialized
        then fail HrxStatusCode.already_exists "GPU accelerator already initialized"
        else do
          s ← ensure_shared_state
          check_hrx s do
            m ← call amdgpu_driver_module_register
            registered m.status
                do d ← call registry_try_create; or_release d.status (pure tt) (enumerate d.ptr)

-- The driver pointer is reset with the driver's release, the rest of the state after it.
abbrev pub close_gpu : ℕ → R HrxStatus
close_gpu driver = do
  release_driver driver
  modify (set_gpu λ c. record { devices = []; driver = 0; device_count = 0; initialized = false })
  release_shared_state
  pure none

unfoldable pub hrx_gpu_shutdown : R HrxStatus
hrx_gpu_shutdown = do
  g ← get
  if not g.gpu.initialized
      then fail HrxStatusCode.invalid_argument "GPU accelerator not initialized"
      else do release_devices g.gpu.devices; close_gpu g.gpu.driver

unfoldable pub hrx_gpu_device_count : ℕ → R (HrxStatus × Option ℕ)
hrx_gpu_device_count count =
    if is_null count
    then (do status ← fail HrxStatusCode.invalid_argument "count is NULL"; pure (status, none))
    else do
      g ← get
      if not g.gpu.initialized
          then (do
            status ← fail HrxStatusCode.unavailable "GPU accelerator not initialized"
            pure (status, none))
          else pure (none, some g.gpu.device_count)

unfoldable pub hrx_gpu_device_get : ℤ → ℕ → R (HrxStatus × Option ℕ)
hrx_gpu_device_get index device =
    if is_null device
    then (do status ← fail HrxStatusCode.invalid_argument "device is NULL"; pure (status, none))
    else do
      g ← get
      if not g.gpu.initialized
          then (do
            status ← fail HrxStatusCode.unavailable "GPU accelerator not initialized"
            pure (status, none))
          else if is_outside index g.gpu.device_count
          then (do
            status ← fail HrxStatusCode.out_of_range "GPU device index out of range"
            pure (status, none))
          else indexed (get_elem? g.gpu.devices (as_index index))
