-- ===== src/Objects/ValueList.antt =====
-- crates/hrx-libhrx/src/value_list.rs, with the values of crates/iree-sys/src/lib.rs: a list of numbers
-- and references behind a counted handle. The IREE objects behind live handles are read through the
-- section's parameters.
pub mod Bytes
pub mod Entries
pub mod Client
pub mod Sequence
pub mod Refinement
use hrx_system_rs.Base.{ℕ, ◌||◌, Option, none, some, List, if◌then◌else◌, String, ℤ}
use hrx_system_rs.Ffi.{HrxStatus, IreeStatus, pure, panic, ◌>>=◌, call, done}
use hrx_system_rs.Hal.{is_null}
use hrx_system_rs.Status.{HrxStatusCode, fail, from_iree}
use hrx_system_rs.Objects.{
  ObjectCall, VmValue, VmRef, O, vm_list_create, vm_list_size, vm_list_push_value,
  vm_list_push_ref_move, vm_list_get_value_as, buffer_retain_ref, buffer_view_retain_ref,
  fence_retain_ref,
}
use Bytes.{to_ne_bytes, from_ne_bytes}

abbrev pub value_type_i64 : ℕ
value_type_i64 = 4

abbrev pub make_i64 : ℤ → VmValue
make_i64 v = record { type_ = value_type_i64; storage = to_ne_bytes v }

abbrev pub get_as_i64 : VmValue → ℤ
get_as_i64 v = from_ne_bytes v.storage

module _ {S : Type 0} where
  abbrev refuse : {A : Type 0} → String → O S (HrxStatus × Option A)
  refuse message = do status ← fail HrxStatusCode.invalid_argument message; pure (status, none)

  -- A status, and the IREE list behind `*list` when there is one.
  abbrev made : IreeStatus → ℕ → O S (HrxStatus × Option ℕ)
  made none vm_list = if is_null vm_list then panic else pure (none, some vm_list)
  made (some c) vm_list = do status ← from_iree (some c); pure (status, none)

  unfoldable pub hrx_value_list_create : ℕ → ℕ → O S (HrxStatus × Option ℕ)
  hrx_value_list_create capacity list =
      if is_null list
      then refuse "list is NULL"
      else do r ← call (vm_list_create capacity); made r.status r.ptr

  module _ (value_list_vm : ℕ → ℕ) where
    -- A status, and the value that is written through the out pointer.
    unfoldable pub hrx_value_list_size : ℕ → ℕ → O S (HrxStatus × Option ℕ)
    hrx_value_list_size list size =
        if is_null list || is_null size
        then refuse "list or size is NULL"
        else do r ← call (vm_list_size (value_list_vm list)); pure (none, some r.num)

    unfoldable pub hrx_value_list_push_i64 : ℕ → ℤ → O S HrxStatus
    hrx_value_list_push_i64 list value =
        if is_null list then fail HrxStatusCode.invalid_argument "list is NULL" else do
          r ← call (vm_list_push_value (value_list_vm list) (make_i64 value))
          from_iree r.status

    unfoldable pub hrx_value_list_push_null_ref : ℕ → O S HrxStatus
    hrx_value_list_push_null_ref list =
        if is_null list then fail HrxStatusCode.invalid_argument "list is NULL" else do
          r ← call (vm_list_push_ref_move (value_list_vm list) (record { ptr = 0; type_ = 0 }))
          from_iree r.status

    -- The retained reference is moved into the list.
    abbrev pub push_retained : ℕ → ObjectCall → O S HrxStatus
    push_retained list retain_ref = do
      x ← call retain_ref
      r ← call (vm_list_push_ref_move (value_list_vm list) (record { ptr = x.ptr; type_ = x.num }))
      from_iree r.status

    unfoldable pub hrx_value_list_push_buffer : (ℕ → ℕ) → ℕ → ℕ → O S HrxStatus
    hrx_value_list_push_buffer buffer_hal list buffer =
        if is_null list || is_null buffer
        then fail HrxStatusCode.invalid_argument "list or buffer is NULL"
        else push_retained list (buffer_retain_ref (buffer_hal buffer))

    unfoldable pub hrx_value_list_push_buffer_view : (ℕ → ℕ) → ℕ → ℕ → O S HrxStatus
    hrx_value_list_push_buffer_view buffer_view_hal list buffer_view =
        if is_null list || is_null buffer_view
        then fail HrxStatusCode.invalid_argument "list or buffer_view is NULL"
        else push_retained list (buffer_view_retain_ref (buffer_view_hal buffer_view))

    unfoldable pub hrx_value_list_push_fence : (ℕ → ℕ) → ℕ → ℕ → O S HrxStatus
    hrx_value_list_push_fence fence_hal list fence =
        if is_null list || is_null fence
        then fail HrxStatusCode.invalid_argument "list or fence is NULL"
        else push_retained list (fence_retain_ref (fence_hal fence))

    -- What IREE writes into the value is a function of the trace.
    module _ (written : List ObjectCall → VmValue) where
      abbrev pub read_i64 : IreeStatus → O S (HrxStatus × Option ℤ)
      read_i64 (some c) = do status ← from_iree (some c); pure (status, none)
      read_i64 none = λ e s t. done (none, some (get_as_i64 (written t))) s t

      unfoldable pub hrx_value_list_get_i64 : ℕ → ℕ → ℕ → O S (HrxStatus × Option ℤ)
      hrx_value_list_get_i64 list index value =
          if is_null list || is_null value then refuse "list or value is NULL" else do
            r ← call (vm_list_get_value_as (value_list_vm list) index value_type_i64)
            read_i64 r.status
