-- ===== src/Buffer/Memory.antt =====
-- crates/hrx-libhrx/src/buffer.rs: buffers made by an allocator, and virtual and physical memory. A
-- handle of an allocator is a pointer; the HAL allocator and the device that it stores are read
-- through `AllocatorHandles`.
use hrx_system_rs.Base.{ℕ, Bool, true, false, ◌||◌, Option, none, some, if◌then◌else◌, ◌==◌}
use hrx_system_rs.Ffi.{HrxStatus, IreeStatus, M, pure, panic, ◌>>=◌, ◌>>◌, call, emit}
use hrx_system_rs.Hal.{is_null, HalBufferParams, queue_affinity_any}
use hrx_system_rs.Status.{HrxStatusCode, fail, from_iree}
use hrx_system_rs.Buffer.{
  BufferCall, allocator_allocate_buffer, allocator_import_buffer, allocator_supports_virtual_memory,
  virtual_memory_query_granularity, virtual_memory_reserve, virtual_memory_release,
  virtual_memory_map, virtual_memory_unmap, virtual_memory_protect, physical_memory_allocate,
  physical_memory_free, device_retain, device_release, HrxBufferS, B, drop_map, drop_pool,
  handle_ref, into_inner_handle, memory_access_all,
}

pub record AllocatorHandles : Type 0 where
  pub hal_allocator : ℕ → ℕ
  pub device : ℕ → ℕ

-- `hrx_buffer_params_t`.
pub record HrxBufferParams : Type 0 where
  pub type_ : ℕ
  pub access : ℕ
  pub usage : ℕ
  pub queue_affinity : ℕ

abbrev to_hal_params : HrxBufferParams → HalBufferParams
to_hal_params p = record {
  usage = p.usage;
  access = p.access;
  type_ = p.type_;
  queue_affinity = p.queue_affinity;
  min_alignment = 0;
}

-- IREE_HAL_BUFFER_USAGE_DEFAULT.
abbrev default_params : ℕ → HalBufferParams
default_params mem_type = record {
  usage = 3075;
  access = memory_access_all;
  type_ = mem_type;
  queue_affinity = 0;
  min_alignment = 0;
}

abbrev pub new_buffer : ℕ → Option ℕ → ℕ → ℕ → ℕ → HrxBufferS
new_buffer hal_buffer hal_pool device mem_type size = record {
  map = none;
  hal_buffer = hal_buffer;
  hal_pool = hal_pool;
  device = device;
  mem_type = mem_type;
  size = size;
}

-- The object behind the new handle stands beside the status.
abbrev pub Made : Type 0
Made = HrxStatus × Option HrxBufferS

module _ {T : Type 0} where
  -- `HalBuffer::from_owned(..).expect(..)`, then the handle.
  abbrev owned : IreeStatus → ℕ → ℕ → ℕ → ℕ → M BufferCall T Made
  owned (some c) p device mem_type size = do status ← from_iree (some c); pure (status, none)
  owned none p device mem_type size = if is_null p then panic else do
    emit (device_retain device)
    pure (none, some (new_buffer p none device mem_type size))

module _ {T : Type 0} (a : AllocatorHandles) where
  unfoldable pub hrx_allocator_allocate_buffer : ℕ → HrxBufferParams → ℕ → ℕ → M BufferCall T Made
  hrx_allocator_allocate_buffer allocator params size buffer =
      if is_null allocator || is_null buffer
      then (do
        status ← fail HrxStatusCode.invalid_argument "allocator or buffer is NULL"
        pure (status, none))
      else do
        r ← call (allocator_allocate_buffer (a.hal_allocator allocator) (to_hal_params params) size)
        owned r.status r.ptr (a.device allocator) params.type_ size

  unfoldable pub hrx_allocator_import_buffer : ℕ → HrxBufferParams → ℕ → ℕ → ℕ → M BufferCall T Made
  hrx_allocator_import_buffer allocator params host_ptr size buffer =
      if is_null allocator || is_null host_ptr || is_null buffer
      then (do
        status ← fail HrxStatusCode.invalid_argument "allocator, host_ptr, or buffer is NULL"
        pure (status, none))
      else do
        r ← call (
            allocator_import_buffer (a.hal_allocator allocator) (to_hal_params params) host_ptr
              size)
        owned r.status r.ptr (a.device allocator) params.type_ size

  unfoldable pub hrx_allocator_virtual_memory_reserve : ℕ → ℕ → ℕ → ℕ → M BufferCall T Made
  hrx_allocator_virtual_memory_reserve allocator affinity size virtual_buffer =
      if is_null allocator || is_null virtual_buffer
      then (do status ← fail HrxStatusCode.invalid_argument "NULL argument"; pure (status, none))
      else do
        r ← call (virtual_memory_reserve (a.hal_allocator allocator) affinity size)
        owned r.status r.ptr (a.device allocator) 48 size

-- `*supported`, `*min_page_size` and `*recommended_page_size`, the last two if they are written.
pub record VirtualMemory : Type 0 where
  pub supported : Bool
  pub min_page_size : Option ℕ
  pub recommended_page_size : Option ℕ

abbrev write_to : ℕ → ℕ → Option ℕ
write_to p value = if is_null p then none else some value

abbrev no_virtual_memory : ℕ → ℕ → VirtualMemory
no_virtual_memory min_page_size recommended_page_size = record {
  supported = false;
  min_page_size = write_to min_page_size 0;
  recommended_page_size = write_to recommended_page_size 0;
}

-- `iree_hal_allocator_virtual_memory_query_granularity` answers two sizes, a function of its number.
abbrev granular : (ℕ → ℕ × ℕ) → IreeStatus → ℕ → ℕ → ℕ → VirtualMemory
granular granularity none n min_page_size recommended_page_size = record {
  supported = true;
  min_page_size = write_to min_page_size (granularity n).0;
  recommended_page_size = write_to recommended_page_size (granularity n).1;
}
granular granularity (some c) n min_page_size recommended_page_size =
    no_virtual_memory min_page_size recommended_page_size

module _ {T : Type 0} (a : AllocatorHandles) (granularity : ℕ → ℕ × ℕ) where
  unfoldable pub hrx_allocator_query_virtual_memory :
      ℕ → ℕ → ℕ → ℕ → ℕ → M BufferCall T (HrxStatus × Option VirtualMemory)
  hrx_allocator_query_virtual_memory allocator mem_type supported min_page_size
        recommended_page_size =
      if is_null allocator || is_null supported
      then (do
        status ← fail HrxStatusCode.invalid_argument "allocator or supported is NULL"
        pure (status, none))
      else do
        s ← call (allocator_supports_virtual_memory (a.hal_allocator allocator))
        if s.num == 0
            then pure (none, some (no_virtual_memory min_page_size recommended_page_size))
            else do
              r ← call (
                  virtual_memory_query_granularity (a.hal_allocator allocator)
                    (default_params mem_type))
              pure (
                none,
                some (granular granularity r.status r.num min_page_size recommended_page_size),
              )

module _ (a : AllocatorHandles) where
  abbrev given_back : ℕ → Option HrxBufferS → B HrxStatus
  given_back allocator none = panic
  given_back allocator (some b) = do
    drop_map b.map
    drop_pool b.hal_pool
    r ← call (virtual_memory_release (a.hal_allocator allocator) b.hal_buffer)
    emit (device_release b.device)
    from_iree r.status

  unfoldable pub hrx_allocator_virtual_memory_release : ℕ → ℕ → B HrxStatus
  hrx_allocator_virtual_memory_release allocator virtual_buffer =
      if is_null allocator || is_null virtual_buffer
      then fail HrxStatusCode.invalid_argument "NULL argument"
      else do b ← into_inner_handle; given_back allocator b

  unfoldable pub hrx_allocator_virtual_memory_map : ℕ → ℕ → ℕ → ℕ → ℕ → ℕ → B HrxStatus
  hrx_allocator_virtual_memory_map allocator virtual_buffer virtual_offset physical physical_offset
        size =
      if is_null allocator || is_null virtual_buffer || is_null physical
      then fail HrxStatusCode.invalid_argument "NULL argument"
      else do
        b ← handle_ref
        r ← call (
            virtual_memory_map (a.hal_allocator allocator) b.hal_buffer virtual_offset physical
              physical_offset size)
        from_iree r.status

  unfoldable pub hrx_allocator_virtual_memory_unmap : ℕ → ℕ → ℕ → ℕ → B HrxStatus
  hrx_allocator_virtual_memory_unmap allocator virtual_buffer virtual_offset size =
      if is_null allocator || is_null virtual_buffer
      then fail HrxStatusCode.invalid_argument "NULL argument"
      else do
        b ← handle_ref
        r ← call (virtual_memory_unmap (a.hal_allocator allocator) b.hal_buffer virtual_offset size)
        from_iree r.status

  unfoldable pub hrx_allocator_virtual_memory_protect : ℕ → ℕ → ℕ → ℕ → ℕ → B HrxStatus
  hrx_allocator_virtual_memory_protect allocator virtual_buffer virtual_offset size protection =
      if is_null allocator || is_null virtual_buffer
      then fail HrxStatusCode.invalid_argument "NULL argument"
      else do
        b ← handle_ref
        r ← call (
            virtual_memory_protect (a.hal_allocator allocator) b.hal_buffer virtual_offset size
              queue_affinity_any protection)
        from_iree r.status

module _ {T : Type 0} (a : AllocatorHandles) where
  -- The value of `*physical`, when IREE writes it, stands beside the status.
  unfoldable pub hrx_allocator_physical_memory_allocate :
      ℕ → ℕ → ℕ → ℕ → M BufferCall T (HrxStatus × Option ℕ)
  hrx_allocator_physical_memory_allocate allocator mem_type size physical =
      if is_null allocator || is_null physical
      then (do status ← fail HrxStatusCode.invalid_argument "NULL argument"; pure (status, none))
      else do
        r ←
            call
              (physical_memory_allocate (a.hal_allocator allocator) (default_params mem_type) size)
        status ← from_iree r.status
        pure (status, some r.ptr)

  unfoldable pub hrx_allocator_physical_memory_free : ℕ → ℕ → M BufferCall T HrxStatus
  hrx_allocator_physical_memory_free allocator physical =
      if is_null allocator || is_null physical
      then fail HrxStatusCode.invalid_argument "NULL argument"
      else do
        r ← call (physical_memory_free (a.hal_allocator allocator) physical)
        from_iree r.status
