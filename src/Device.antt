-- ===== src/Device.antt =====
-- crates/hrx-libhrx/src/device.rs, and the fixed arrays of runtime.rs that a device's texts are kept in.
pub mod Properties
use hrx_system_rs.Base.{
  ℕ, zero, suc, ◌+◌, ◌-◌, Bool, true, false, ◌||◌, Option, none, some, List, [], ◌∷◌, length, ltb,
  ◌==◌, if◌then◌else◌, ℤ, pos, negsuc, String,
}
use Prim.Native.Nat.{min}
use hrx_system_rs.Ffi.{HrxStatus, IreeStatus, M, pure, panic, ◌>>=◌, ◌>>◌, call}
use hrx_system_rs.Hal.{is_null}
use hrx_system_rs.Status.{HrxStatusCode, fail, from_iree}

-- The bytes of an array with `room` entries of which `n` are still to be copied from the text.
abbrev pub copied : ℕ → ℕ → List ℕ → List ℕ
copied zero n s = []
copied (suc room) zero s = 0 ∷ copied room zero s
copied (suc room) (suc n) [] = 0 ∷ copied room n []
copied (suc room) (suc n) (c ∷ s) = c ∷ copied room n s

-- `cstr_array::<N>(s)`.
unfoldable pub cstr_array : ℕ → List ℕ → List ℕ
cstr_array size s = copied size (min (length s) (size - 1)) s

unfoldable pub cstr_len : List ℕ → ℕ
cstr_len [] = 0
cstr_len (c ∷ s) = if c == 0 then 0 else suc (cstr_len s)

pub record HrxDeviceS : Type 0 where
  pub type_ : ℕ
  pub hal_device : ℕ
  pub name : List ℕ
  pub architecture : List ℕ

pub data DeviceCall : Type 0 where
  -- hal.device, memory.total
  query_total_memory : ℕ → DeviceCall
  -- for all of no semaphores, without a limit
  wait_no_semaphores : ℕ → DeviceCall

-- The property written behind the caller's pointer.
pub data Written : Type 0 where
  text : List ℕ → Written
  word_64 word_32 : ℕ → Written

abbrev D : Type 0 → Type 0
D A = M DeviceCall HrxDeviceS A

abbrev push_byte : ℕ → Option (List ℕ) → Option (List ℕ)
push_byte c none = none
push_byte c (some s) = some (c ∷ s)

-- The first n bytes of an array: `none` is a read past its end.
unfoldable pub first_bytes : ℕ → List ℕ → Option (List ℕ)
first_bytes zero s = some []
first_bytes (suc n) [] = none
first_bytes (suc n) (c ∷ s) = push_byte c (first_bytes n s)

abbrev write_text : Option (List ℕ) → D (HrxStatus × Option Written)
write_text none = panic
write_text (some s) = pure (none, some (text s))

abbrev pub text_property : List ℕ → ℕ → String → D (HrxStatus × Option Written)
text_property array value_size too_small =
    if ltb value_size (cstr_len array + 1)
    then (do status ← fail HrxStatusCode.out_of_range too_small; pure (status, none))
    else write_text (first_bytes (cstr_len array + 1) array)

-- A query that fails reports no memory.
abbrev memory_or_zero : IreeStatus → ℕ → ℕ
memory_or_zero none n = n
memory_or_zero (some c) n = 0

abbrev is_property : ℕ → ℤ → Bool
is_property n (pos m) = m == n
is_property n (negsuc m) = false

-- The value that is written, if one is, stands beside the status.
unfoldable pub hrx_device_get_property : ℕ → ℤ → ℕ → ℕ → D (HrxStatus × Option Written)
hrx_device_get_property device prop value value_size =
    if is_null device || is_null value
    then (do
      status ← fail HrxStatusCode.invalid_argument "device or value is NULL"
      pure (status, none))
    else λ e dev t.
        (if is_property 0 prop
            then text_property dev.name value_size "buffer too small for device name"
            else if is_property 1 prop
            then text_property dev.architecture value_size
                "buffer too small for architecture string"
            else if is_property 2 prop
            then (if ltb value_size 8
                then (do
                  status ← fail HrxStatusCode.out_of_range "buffer too small for uint64_t"
                  pure (status, none))
                else do
                  r ← call (query_total_memory dev.hal_device)
                  pure (none, some (word_64 (memory_or_zero r.status r.num))))
            else if is_property 3 prop || is_property 4 prop
            then (if ltb value_size 4
                then (do
                  status ← fail HrxStatusCode.out_of_range "buffer too small for uint32_t"
                  pure (status, none))
                else pure (none, some (word_32 0)))
            else do
              status ← fail HrxStatusCode.invalid_argument "unknown device property"
              pure (status, none))
          e dev t

unfoldable pub hrx_device_synchronize : ℕ → D HrxStatus
hrx_device_synchronize device =
    if is_null device then fail HrxStatusCode.invalid_argument "device is NULL" else λ e dev t.
    (do r ← call (wait_no_semaphores dev.hal_device); from_iree r.status) e dev t

unfoldable pub hrx_device_get_type : ℕ → ℕ → D (HrxStatus × Option ℕ)
hrx_device_get_type device type_ =
    if is_null device || is_null type_
    then (do
      status ← fail HrxStatusCode.invalid_argument "device or type is NULL"
      pure (status, none))
    else λ e dev t. pure (none, some dev.type_) e dev t
