-- ===== src/Objects.antt =====
-- crates/hrx-libhrx/src: the small objects behind counted handles. Each child models one file: fences,
-- value lists, buffer views, executables, and modules with their functions. The calls that they make
-- into IREE and libc are the constructors of `ObjectCall`. Text is the list of its characters.
pub mod Fence
pub mod BufferView
pub mod ValueList
pub mod Executable
pub mod Module
use hrx_system_rs.Base.{ℕ, ℤ, Bool, List}
use hrx_system_rs.Ffi.{M}
use hrx_system_rs.Hal.{Timeout}

-- `iree_vm_value_t`: the type and the eight bytes of the payload.
pub record VmValue : Type 0 where
  pub type_ : ℕ
  pub storage : List ℕ

-- `iree_vm_ref_t`.
pub record VmRef : Type 0 where
  pub ptr : ℕ
  pub type_ : ℕ

-- `iree_hal_executable_params_t`, as far as it is set.
pub record ExecutableParams : Type 0 where
  pub format : List ℕ
  pub data_ : ℕ
  pub data_size : ℕ
  pub caching_mode : ℕ

pub data ObjectCall : Type 0 where
  -- fences; at a semaphore and a value
  fence_create fence_release fence_signal : ℕ → ObjectCall
  fence_create_at : ℕ → ℕ → ObjectCall
  fence_insert : ℕ → ℕ → ℕ → ObjectCall
  fence_extend : ℕ → ℕ → ObjectCall
  fence_wait : ℕ → Timeout → ObjectCall
  -- value lists
  vm_list_create vm_list_release vm_list_size : ℕ → ObjectCall
  vm_list_push_value : ℕ → VmValue → ObjectCall
  vm_list_push_ref_move : ℕ → VmRef → ObjectCall
  -- list, index, type
  vm_list_get_value_as : ℕ → ℕ → ℕ → ObjectCall
  buffer_retain_ref buffer_view_retain_ref fence_retain_ref : ℕ → ObjectCall
  -- buffer, rank, shape, element type, encoding type
  buffer_view_create : ℕ → ℕ → List ℕ → ℕ → ℕ → ObjectCall
  buffer_view_release view_rank : ℕ → ObjectCall
  view_dim : ℕ → ℕ → ObjectCall
  -- executables and the files that they are read from
  executable_cache_create executable_cache_release executable_release function_count :
      ℕ → ObjectCall
  prepare_executable : ℕ → ExecutableParams → ObjectCall
  function_info : ℕ → ℕ → ObjectCall
  lookup_function_by_name : ℕ → List ℕ → ObjectCall
  fopen : List ℕ → ObjectCall
  seek_end seek_start ftell fclose : ℕ → ObjectCall
  -- destination, size, file
  fread : ℕ → ℕ → ℕ → ObjectCall
  malloc_uninitialized allocator_free : ℕ → ObjectCall
  -- modules: VM instance, archive, its size
  bytecode_module_create : ℕ → ℕ → ℕ → ObjectCall
  -- VM instance, device group
  hal_module_create : ℕ → ℕ → ObjectCall
  vm_module_release device_group_retain device_group_release : ℕ → ObjectCall
  -- VM instance, modules
  context_create_with_modules : ℕ → List ℕ → ObjectCall
  context_release : ℕ → ObjectCall
  resolve_function : ℕ → List ℕ → ObjectCall
  -- context, function, inputs, outputs
  vm_invoke : ℕ → ℕ → ℕ → ℕ → ObjectCall
  device_retain device_release : ℕ → ObjectCall

abbrev pub O : Type 0 → Type 0 → Type 0
O S A = M ObjectCall S A
