-- ===== src/Device/Properties.antt =====
-- crates/hrx-libhrx/src/device.rs: the bytes that a property of a device writes.
use hrx_system_rs.Base.{
  ℕ, zero, suc, ◌+◌, ◌-◌, ◌≤◌, ◌<◌, ◌≡◌, ◌≢◌, false, Option, none, some, List, [], ◌∷◌, length, ltb,
  ◌==◌, if◌then◌else◌, ℤ, pos, arith,
}
use Prim.Native.Nat.{min}
use hrx_system_rs.Ffi.{Env, HrxStatus}
use hrx_system_rs.Ffi.Ensures.{Ensures}
use hrx_system_rs.Device.{
  copied, cstr_array, cstr_len, HrxDeviceS, DeviceCall, Written, text, word_64, word_32,
  first_bytes, hrx_device_get_property,
}
use hrx_system_rs.Status.{HrxStatusCode, to_i32, hrx_status_code, hrx_make_status}

abbrev pub bytes_of : Written → ℕ
bytes_of (text s) = length s
bytes_of (word_64 n) = 8
bytes_of (word_32 n) = 4

abbrev pub Fits : ℕ → HrxStatus × Option Written → Type 0
Fits n (status, none) = Unit {0}
Fits n (status, some w) = bytes_of w ≤ n

-- The array has a NUL.
abbrev pub Terminated : List ℕ → Type 0
Terminated [] = ⊥
Terminated (c ∷ s) = if c == 0 then Unit {0} else Terminated s

abbrev FirstBytes : ℕ → Option (List ℕ) → Type 0
FirstBytes n none = ⊥
FirstBytes n (some s) = length s ≡ n

first_bytes-Terminated :
    (s : List ℕ) → Terminated s → FirstBytes (cstr_len s + 1) (first_bytes (cstr_len s + 1) s)
unfolding cstr_len first_bytes
first_bytes-Terminated [] h = h
first_bytes-Terminated (c ∷ s) h = ground (arith, first_bytes-Terminated s)

-- A property never writes more bytes than the caller's size and never reads past the device's
-- arrays, when these have a NUL; it leaves the device as it is.
pub hrx_device_get_property-Fits :
    (e : Env DeviceCall) (device value value_size : ℕ) (prop : ℤ) (dev : HrxDeviceS)
    (t : List DeviceCall)
    → Terminated dev.name
    → Terminated dev.architecture
    → Ensures
        (λ r dev' _. (dev' ≡ dev) × Fits value_size r)
        (hrx_device_get_property device prop value value_size e dev t)
unfolding hrx_device_get_property
hrx_device_get_property-Fits e device value value_size prop dev t h k =
    ground (arith, first_bytes-Terminated dev.name h, first_bytes-Terminated dev.architecture k)

copied-Terminated : (room n : ℕ) (s : List ℕ) → n < room → Terminated (copied room n s)
copied-Terminated zero n s h = absurd (omega arith)
copied-Terminated (suc room) zero s h = ground arith
copied-Terminated (suc room) (suc n) [] h = ground arith
copied-Terminated (suc room) (suc n) (c ∷ s) h = ground (arith, copied-Terminated room n s)

abbrev pub NoZeros : List ℕ → Type 0
NoZeros [] = Unit {0}
NoZeros (c ∷ s) = (c ≢ 0) × NoZeros s

-- The first n bytes of a text, then a NUL.
abbrev pub with_nul : ℕ → List ℕ → List ℕ
with_nul zero s = 0 ∷ []
with_nul (suc n) [] = 0 ∷ []
with_nul (suc n) (c ∷ s) = c ∷ with_nul n s

first_bytes-copied :
    (room n : ℕ) (s : List ℕ)
    → NoZeros s
    → n < room
    → n ≤ length s
    → first_bytes (cstr_len (copied room n s) + 1) (copied room n s) ≡ some (with_nul n s)
unfolding first_bytes cstr_len
first_bytes-copied zero n s z h l = absurd (omega arith)
first_bytes-copied (suc room) zero s z h l = ground arith
first_bytes-copied (suc room) (suc n) [] z h l = absurd (omega arith)
first_bytes-copied (suc room) (suc n) (c ∷ s) z h l = ground (arith, first_bytes-copied room n s)

cstr_len-copied :
    (room n : ℕ) (s : List ℕ) → NoZeros s → n < room → n ≤ length s → cstr_len (copied room n s) ≡ n
unfolding cstr_len
cstr_len-copied zero n s z h l = absurd (omega arith)
cstr_len-copied (suc room) zero s z h l = ground arith
cstr_len-copied (suc room) (suc n) [] z h l = absurd (omega arith)
cstr_len-copied (suc room) (suc n) (c ∷ s) z h l = ground (arith, cstr_len-copied room n s)

abbrev pub NameWritten : List ℕ → ℕ → HrxStatus × Option Written → Type 0
NameWritten s value_size (status, written) =
    (written ≡ (
      if ltb value_size (min (length s) 127 + 1)
      then none
      else some (text (with_nul (min (length s) 127) s))))
    × (hrx_status_code status ≡ (
        if ltb value_size (min (length s) 127 + 1) then to_i32 HrxStatusCode.out_of_range else 0))

-- The name of a device whose array was made of a text without NULs is the text, cut to 127 bytes, and
-- a NUL, when the caller's size has room for it, and otherwise an error of the code for that and
-- nothing. Payload allocations must not fail.
pub hrx_device_get_property-NameWritten :
    (e : Env DeviceCall) (device value value_size : ℕ) (dev : HrxDeviceS) (t : List DeviceCall)
    (s : List ℕ)
    → ((u : List DeviceCall) → e.malloc_fails u ≡ false)
    → device ≢ 0
    → value ≢ 0
    → NoZeros s
    → dev.name ≡ cstr_array 128 s
    → Ensures
        (λ r _ _. NameWritten s value_size r)
        (hrx_device_get_property device (pos 0) value value_size e dev t)
unfolding hrx_device_get_property cstr_array hrx_make_status hrx_status_code
hrx_device_get_property-NameWritten e device value value_size dev t s rich d v z made = ground (
  arith,
  rich t,
  first_bytes-copied 128 (min (length s) 127) s z (omega arith) (omega arith),
  cstr_len-copied 128 (min (length s) 127) s z (omega arith) (omega arith),
)

-- An array made of a text has a NUL.
pub cstr_array-Terminated : (size : ℕ) (s : List ℕ) → 0 < size → Terminated (cstr_array size s)
unfolding cstr_array
cstr_array-Terminated size s h = copied-Terminated size (min (length s) (size - 1)) s (omega arith)
