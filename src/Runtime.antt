-- ===== src/Runtime.antt =====
-- crates/hrx-libhrx/src/runtime.rs: the state that the accelerators share, and the CPU and the GPU
-- accelerator. The global lock is held for a whole call, so calls do not interleave.
pub mod Shared
pub mod Cpu
pub mod Gpu
pub mod Counts
pub mod CpuCounts
pub mod GpuCounts
pub mod GpuAtomic
pub mod Atomic
pub mod Shutdown
pub mod Client
pub mod Devices
use hrx_system_rs.Base.{ℕ, Bool, false, List, []}
use hrx_system_rs.Ffi.{M}

pub record SharedState : Type 0 where
  pub vm_instance : ℕ
  pub proactor_pool : ℕ
  pub init_count : ℕ
  pub initialized : Bool

-- `CpuState` and `GpuState`, which have the same fields.
pub record AcceleratorState : Type 0 where
  pub devices : List ℕ
  pub device_count : ℕ
  pub initialized : Bool
  pub driver : ℕ

pub record Globals : Type 0 where
  pub shared : SharedState
  pub cpu : AcceleratorState
  pub gpu : AcceleratorState

abbrev pub no_accelerator : AcceleratorState
no_accelerator = record { devices = []; device_count = 0; initialized = false; driver = 0 }

-- The value of the static `G` at load.
abbrev pub initial_globals : Globals
initial_globals = record {
  shared = record { vm_instance = 0; proactor_pool = 0; init_count = 0; initialized = false };
  cpu = no_accelerator;
  gpu = no_accelerator;
}

-- What a driver reports of a device: a pseudo-device has an empty path.
pub record DeviceInfo : Type 0 where
  pub path_size : ℕ

pub data RuntimeCall : Type 0 where
  vm_instance_create proactor_pool_create : RuntimeCall
  register_all_types vm_instance_release proactor_pool_release : ℕ → RuntimeCall
  -- local-task: groups, then the executor and what is built on it
  task_executor_create : ℕ → RuntimeCall
  task_executor_release : ℕ → RuntimeCall
  create_executable_loaders : RuntimeCall
  -- the loader in this slot of the array
  executable_loader_release : ℕ → RuntimeCall
  allocator_create_heap : RuntimeCall
  allocator_retain allocator_release : ℕ → RuntimeCall
  -- executor, number of loaders, allocator
  task_driver_create : ℕ → ℕ → ℕ → RuntimeCall
  driver_release : ℕ → RuntimeCall
  -- driver, proactor pool
  create_default_device : ℕ → ℕ → RuntimeCall
  hal_device_release device_allocator : ℕ → RuntimeCall
  frontier_tracker_create : RuntimeCall
  frontier_tracker_release : ℕ → RuntimeCall
  device_group_create : ℕ → ℕ → RuntimeCall
  -- amdgpu
  amdgpu_driver_module_register registry_try_create : RuntimeCall
  query_available_devices : ℕ → RuntimeCall
  free_infos : ℕ → RuntimeCall
  -- driver, ordinal, proactor pool
  create_device_by_ordinal : ℕ → ℕ → ℕ → RuntimeCall
  query_gfxip : ℕ → RuntimeCall
  -- a new device handle: type, ordinal, HAL device, group, allocator
  device_new : ℕ → ℕ → ℕ → ℕ → ℕ → RuntimeCall
  hrx_device_release : ℕ → RuntimeCall

abbrev pub R : Type 0 → Type 0
R A = M RuntimeCall Globals A

abbrev pub accelerator_gpu : ℕ
accelerator_gpu = 0

abbrev pub accelerator_cpu : ℕ
accelerator_cpu = 1

abbrev pub hrx_max_devices : ℕ
hrx_max_devices = 64

abbrev pub set_shared : (SharedState → SharedState) → Globals → Globals
set_shared f g = record g { shared = f g.shared }
