-- ===== src/Buffer.antt =====
-- crates/hrx-libhrx/src/buffer.rs and handle.rs: a buffer behind a counted handle, its scoped mapping
-- and its transfers. The state is the `Arc` behind one handle; handles are arguments, for the NULL
-- tests. The calls into IREE that these operations make are the constructors of `BufferCall`.
pub mod Memory
pub mod Transfer
pub mod Client
pub mod Ledger
pub mod Ownership
pub mod Bounds
use hrx_system_rs.Base.{
  ℕ, suc, ◌+◌, ◌-◌, Bool, true, false, not, ◌||◌, Option, none, some, List, [], ◌∷◌, ltb, ◌==◌,
  if◌then◌else◌, add_u64, bit_and, bit_or,
}
use hrx_system_rs.Ffi.{HrxStatus, IreeStatus, M, pure, panic, ◌>>=◌, ◌>>◌, call, emit, get, modify}
use hrx_system_rs.Hal.{is_null, HalBufferParams}
use hrx_system_rs.Status.{HrxStatusCode, fail, from_iree, check}

pub data BufferCall : Type 0 where
  -- HAL buffer, mode, access, offset, size
  buffer_map_range : ℕ → ℕ → ℕ → ℕ → ℕ → BufferCall
  -- the mapping that a call above filled in
  buffer_unmap_range : ℕ → BufferCall
  hal_buffer_release hal_pool_release device_retain device_release : ℕ → BufferCall
  -- device, host pointer, HAL buffer, offset, size
  device_transfer_h2d device_transfer_d2h : ℕ → ℕ → ℕ → ℕ → ℕ → BufferCall
  -- allocator, parameters, size
  allocator_allocate_buffer : ℕ → HalBufferParams → ℕ → BufferCall
  -- allocator, parameters, host pointer, size
  allocator_import_buffer : ℕ → HalBufferParams → ℕ → ℕ → BufferCall
  allocator_supports_virtual_memory : ℕ → BufferCall
  virtual_memory_query_granularity : ℕ → HalBufferParams → BufferCall
  -- allocator, affinity, size
  virtual_memory_reserve : ℕ → ℕ → ℕ → BufferCall
  -- allocator, HAL buffer
  virtual_memory_release : ℕ → ℕ → BufferCall
  -- allocator, HAL buffer, offset, physical memory, offset, size
  virtual_memory_map : ℕ → ℕ → ℕ → ℕ → ℕ → ℕ → BufferCall
  virtual_memory_unmap : ℕ → ℕ → ℕ → ℕ → BufferCall
  -- allocator, HAL buffer, offset, size, affinity, protection
  virtual_memory_protect : ℕ → ℕ → ℕ → ℕ → ℕ → ℕ → BufferCall
  physical_memory_allocate : ℕ → HalBufferParams → ℕ → BufferCall
  physical_memory_free : ℕ → ℕ → BufferCall

-- `mapping` is what IREE keeps of a mapping, `ptr` the address of the mapped bytes.
pub record MappedRange : Type 0 where
  pub mapping : ℕ
  pub ptr : ℕ

pub record HrxBufferS : Type 0 where
  pub map : Option MappedRange
  pub hal_buffer : ℕ
  pub hal_pool : Option ℕ
  pub device : ℕ
  pub mem_type : ℕ
  pub size : ℕ

-- The allocation behind a handle: it is freed when `strong` is 0.
pub record Arc : Type 0 where
  pub strong : ℕ
  pub inner : HrxBufferS

abbrev pub B : Type 0 → Type 0
B A = M BufferCall Arc A

abbrev pub set_map : Option MappedRange → Arc → Arc
set_map m a = record a { inner = record a.inner { map = m } }

-- `Drop` of `MappedRange`: the status of the unmap is ignored.
abbrev pub drop_map : Option MappedRange → B (Unit {0})
drop_map none = pure tt
drop_map (some m) = emit (buffer_unmap_range m.mapping)

abbrev pub drop_pool : Option ℕ → B (Unit {0})
drop_pool none = pure tt
drop_pool (some p) = emit (hal_pool_release p)

-- The fields drop in the order of their declaration.
abbrev pub drop_buffer : HrxBufferS → B (Unit {0})
drop_buffer b = do
  drop_map b.map
  emit (hal_buffer_release b.hal_buffer)
  drop_pool b.hal_pool
  emit (device_release b.device)

-- `Arc::increment_strong_count`: an error of the caller once the allocation is freed.
unfoldable pub handle_retain : B (Unit {0})
handle_retain = do
  a ← get
  if a.strong == 0 then panic else modify (λ a. record a { strong = a.strong + 1 })

unfoldable pub handle_release : B (Unit {0})
handle_release = do
  a ← get
  if a.strong == 0 then panic else do
    modify λ a. record a { strong = a.strong - 1 }
    if a.strong == 1 then drop_buffer a.inner else pure tt

abbrev pub handle_ref : B HrxBufferS
handle_ref = do a ← get; if a.strong == 0 then panic else pure a.inner

abbrev taken : ℕ → HrxBufferS → B (Option HrxBufferS)
taken n b = if n == 1 then pure (some b) else pure none

-- The object is moved out with the last reference, and is not dropped.
abbrev pub into_inner_handle : B (Option HrxBufferS)
into_inner_handle = do
  a ← get
  if a.strong == 0
      then panic
      else do modify λ a. record a { strong = a.strong - 1 }; taken a.strong a.inner

abbrev pub memory_access_all : ℕ
memory_access_all = 7

abbrev pub mapping_mode_scoped : ℕ
mapping_mode_scoped = 1

-- `flags & bit != 0`.
abbrev has_flag : ℕ → ℕ → Bool
has_flag flags bit = not (bit_and 32 flags bit == 0)

abbrev or_if : Bool → ℕ → ℕ → ℕ
or_if true bits access = bit_or 16 access bits
or_if false bits access = access

-- HRX_MAP_READ, HRX_MAP_WRITE and HRX_MAP_DISCARD, which asks for DISCARD_WRITE.
unfoldable pub map_access : ℕ → ℕ
map_access flags =
    or_if (has_flag flags 4) (bit_or 16 2 4)
      (or_if (has_flag flags 2) 2 (or_if (has_flag flags 1) 1 0))

abbrev mapped : IreeStatus → ℕ → ℕ → B (HrxStatus × Option ℕ)
mapped (some c) mapping ptr = do status ← from_iree (some c); pure (status, none)
mapped none mapping ptr = do
  modify (set_map (some (record { mapping = mapping; ptr = ptr })))
  pure (none, some ptr)

abbrev map_unless : Option MappedRange → B (HrxStatus × Option ℕ) → B (HrxStatus × Option ℕ)
map_unless none rest = rest
map_unless (some m) rest = do
  status ← fail HrxStatusCode.failed_precondition "buffer is already mapped"
  pure (status, none)

-- The value of `*mapped_ptr`, when it is written, stands beside the status.
unfoldable pub hrx_buffer_map : ℕ → ℕ → ℕ → ℕ → ℕ → B (HrxStatus × Option ℕ)
unfolding map_access
hrx_buffer_map buffer flags offset size mapped_ptr =
    if is_null buffer || is_null mapped_ptr
    then (do
      status ← fail HrxStatusCode.invalid_argument "buffer or mapped_ptr is NULL"
      pure (status, none))
    else do
      b ← handle_ref
      map_unless b.map do
        r ← call (buffer_map_range b.hal_buffer mapping_mode_scoped (map_access flags) offset size)
        mapped r.status r.num r.ptr

abbrev unmapped : Option MappedRange → B HrxStatus
unmapped none = pure none
unmapped (some m) = do r ← call (buffer_unmap_range m.mapping); from_iree r.status

unfoldable pub hrx_buffer_unmap : ℕ → B HrxStatus
hrx_buffer_unmap buffer =
    if is_null buffer
    then fail HrxStatusCode.invalid_argument "buffer is NULL"
    else do b ← handle_ref; modify (set_map none); unmapped b.map

abbrev whole_mapped : IreeStatus → ℕ → ℕ → B (HrxStatus × Option ℕ)
whole_mapped none mapping ptr = do
  modify (set_map (some (record { mapping = mapping; ptr = ptr })))
  pure (none, some ptr)
whole_mapped (some c) mapping ptr = do
  status ← fail HrxStatusCode.unavailable "cannot get device pointer for this buffer type"
  pure (status, some 0)

abbrev pointer_of : Option MappedRange → HrxBufferS → B (HrxStatus × Option ℕ)
pointer_of (some m) b = pure (none, some m.ptr)
pointer_of none b = do
  r ← call (buffer_map_range b.hal_buffer mapping_mode_scoped memory_access_all 0 b.size)
  whole_mapped r.status r.num r.ptr

-- As above. A failed mapping writes NULL.
unfoldable pub hrx_buffer_get_device_ptr : ℕ → ℕ → B (HrxStatus × Option ℕ)
hrx_buffer_get_device_ptr buffer device_ptr =
    if is_null buffer || is_null device_ptr
    then (do
      status ← fail HrxStatusCode.invalid_argument "buffer or device_ptr is NULL"
      pure (status, none))
    else do b ← handle_ref; pointer_of b.map b

unfoldable pub hrx_buffer_get_size : ℕ → ℕ → B (HrxStatus × Option ℕ)
hrx_buffer_get_size buffer size =
    if is_null buffer || is_null size
    then (do
      status ← fail HrxStatusCode.invalid_argument "buffer or size is NULL"
      pure (status, none))
    else do b ← handle_ref; pure (none, some b.size)
