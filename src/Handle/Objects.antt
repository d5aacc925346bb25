-- ===== src/Handle/Objects.antt =====
-- crates/hrx-libhrx/src: what the objects behind handles give back when they are dropped. A wrapper of
-- crates/iree-hal/src/lib.rs releases its object once.
use hrx_system_rs.Base.{ℕ, List, [], ◌∷◌}
use hrx_system_rs.Hal.{HalCall, semaphore_release, device_release}
use hrx_system_rs.Objects.{
  ObjectCall, fence_release, vm_list_release, buffer_view_release, executable_release,
  executable_cache_release, context_release, vm_module_release,
}
use hrx_system_rs.Objects as calls
use hrx_system_rs.Objects.Executable.{HrxExecutableS}

-- semaphore.rs: the IREE semaphore, then the device.
pub record HrxSemaphoreS : Type 0 where
  pub hal : ℕ
  pub device : ℕ

abbrev pub semaphore_drops : HrxSemaphoreS → List HalCall
semaphore_drops s = semaphore_release s.hal ∷ device_release s.device ∷ []

-- fence.rs, value_list.rs and buffer_view.rs: one IREE object.
abbrev pub fence_drops : ℕ → List ObjectCall
fence_drops hal = fence_release hal ∷ []

abbrev pub value_list_drops : ℕ → List ObjectCall
value_list_drops vm_list = vm_list_release vm_list ∷ []

abbrev pub buffer_view_drops : ℕ → List ObjectCall
buffer_view_drops hal = buffer_view_release hal ∷ []

-- executable.rs: the executable, its cache, then the device.
abbrev pub executable_drops : HrxExecutableS → List ObjectCall
executable_drops x =
    executable_release x.hal_executable
    ∷ executable_cache_release x.hal_executable_cache
    ∷ calls.device_release x.device
    ∷ []
