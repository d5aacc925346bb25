-- ===== src/Hal.antt =====
-- The calls that the streams, the semaphores and the queue operations of crates/hrx-libhrx make:
-- IREE's HAL (crates/iree-sys/src/init.rs, fem.rs), libc, and the reference counts of other
-- handles. Pointers are numbers, and NULL is 0.
pub mod Ledger
pub mod Samples
use hrx_system_rs.Base.{ℕ, ◌-◌, ◌^◌, ℤ, List, Bool, ◌==◌}

abbrev pub is_null : ℕ → Bool
is_null p = p == 0

-- `iree_timeout_t`.
pub data Timeout : Type 0 where
  infinite immediate : Timeout
  relative_ns : ℤ → Timeout

-- `iree_hal_buffer_ref_t::make(buffer, offset, length)`.
pub record HalBufferRef : Type 0 where
  pub buffer : ℕ
  pub offset : ℕ
  pub length : ℕ

-- One entry of an `iree_hal_semaphore_list_t`.
pub record SemaphoreValue : Type 0 where
  pub semaphore : ℕ
  pub value : ℕ

-- `iree_hal_dispatch_config_t::new_static(size, count)`.
pub record HalDispatchConfig : Type 0 where
  pub workgroup_size : ℕ × ℕ × ℕ
  pub workgroup_count : ℕ × ℕ × ℕ

-- `iree_hal_buffer_params_t`.
pub record HalBufferParams : Type 0 where
  pub usage : ℕ
  pub access : ℕ
  pub type_ : ℕ
  pub queue_affinity : ℕ
  pub min_alignment : ℕ

-- A command recorded into a command buffer.
pub data Command : Type 0 where
  fill_buffer : HalBufferRef → ℕ → ℕ → Command
  copy_buffer : HalBufferRef → HalBufferRef → Command
  update_buffer : ℕ → HalBufferRef → Command
  execution_barrier : ℕ → ℕ → ℕ → Command
  dispatch : ℕ → ℕ → HalDispatchConfig → ℕ × ℕ → List HalBufferRef → ℕ → Command

pub data HalCall : Type 0 where
  -- device, mode, categories, affinity
  command_buffer_create : ℕ → ℕ → ℕ → ℕ → HalCall
  command_buffer_begin command_buffer_end command_buffer_release : ℕ → HalCall
  record_command : ℕ → Command → HalCall
  -- device, affinity, wait list, signal list, command buffer
  queue_execute : ℕ → ℕ → List SemaphoreValue → List SemaphoreValue → ℕ → HalCall
  queue_barrier : ℕ → ℕ → List SemaphoreValue → List SemaphoreValue → HalCall
  -- device, affinity, wait list, signal list, executable, ordinal, the rest of the dispatch
  queue_dispatch :
      ℕ
      → ℕ
      → List SemaphoreValue
      → List SemaphoreValue
      → ℕ
      → ℕ
      → HalDispatchConfig
      → ℕ × ℕ
      → List HalBufferRef
      → ℕ
      → HalCall
  -- device, affinity, wait list, signal list, thunk
  queue_host_call : ℕ → ℕ → List SemaphoreValue → List SemaphoreValue → ℕ → HalCall
  -- device, affinity, initial value
  semaphore_create : ℕ → ℕ → ℕ → HalCall
  semaphore_query semaphore_release : ℕ → HalCall
  semaphore_wait : ℕ → ℕ → Timeout → HalCall
  semaphore_signal : ℕ → ℕ → HalCall
  -- a new `Arc` around a HAL object and a device, and the counts of other handles
  arc_new : ℕ → ℕ → HalCall
  device_retain device_release hrx_semaphore_release : ℕ → HalCall
  malloc free : ℕ → HalCall
  -- buffers, their pools and what a pool is made of
  -- allocator, parameters, size
  query_buffer_compatibility allocate_buffer : ℕ → HalBufferParams → ℕ → HalCall
  buffer_byte_length buffer_ref_retain buffer_ref_release pool_ref_release : ℕ → HalCall
  -- device, affinity, wait list, signal list, pool, parameters, size
  queue_alloca :
      ℕ → ℕ → List SemaphoreValue → List SemaphoreValue → ℕ → HalBufferParams → ℕ → HalCall
  proactor_pool_get notification_create notification_release notification_signal : ℕ → HalCall
  hal_allocator_retain hal_allocator_release host_malloc host_free : ℕ → HalCall

-- The fields that the code reads through handles of other, live objects.
pub record Objects : Type 0 where
  pub semaphore_hal : ℕ → ℕ
  pub buffer_hal : ℕ → ℕ
  pub executable_hal : ℕ → ℕ
  pub hal_device : ℕ → ℕ

abbrev pub mode_one_shot : ℕ
mode_one_shot = 1

abbrev pub category_transfer : ℕ
category_transfer = 1

abbrev pub category_dispatch : ℕ
category_dispatch = 2

abbrev pub queue_affinity_any : ℕ
queue_affinity_any = 2 ^ 64 - 1

abbrev pub stage_command_retire : ℕ
stage_command_retire = 16

abbrev pub stage_command_issue : ℕ
stage_command_issue = 1

abbrev pub memory_access_all : ℕ
memory_access_all = 7
