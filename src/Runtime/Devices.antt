-- ===== src/Runtime/Devices.antt =====
-- crates/hrx-libhrx/src/runtime.rs: the device table of an accelerator, its counts and lookups.
use hrx_system_rs.Base.{
  ℕ, zero, suc, ◌≤◌, ◌<◌, ◌≡◌, refl, none, some, Option, List, [], ◌∷◌, length, get_elem?, ℤ, pos,
  negsuc, arith, not, if◌then◌else◌,
}
use hrx_system_rs.Ffi.{Env, HrxStatus}
use hrx_system_rs.Ffi.Ensures.{Ensures}
use hrx_system_rs.Hal.{is_null}
use hrx_system_rs.Status.{HrxStatusCode, to_i32, hrx_status_code, hrx_make_status}
use hrx_system_rs.Runtime.{AcceleratorState, Globals, RuntimeCall}
use hrx_system_rs.Runtime.Cpu.{hrx_cpu_device_count, hrx_cpu_device_get}
use hrx_system_rs.Runtime.Gpu.{hrx_gpu_device_count, hrx_gpu_device_get}
use hrx_system_rs.Runtime.Counts.{Documented, IsCounted}

-- The table's entry at a C index.
abbrev pub entry_at : AcceleratorState → ℤ → Option ℕ
entry_at a (pos i) = get_elem? a.devices i
entry_at a (negsuc i) = none

get_elem-defined : (xs : List ℕ) (i : ℕ) → i < length xs → (x : ℕ) × (get_elem? xs i ≡ some x)
get_elem-defined [] i h = ground arith
get_elem-defined (x ∷ xs) zero h = (x, refl)
get_elem-defined (x ∷ xs) (suc i) h = get_elem-defined xs i (omega arith)

get_elem-undefined : (xs : List ℕ) (i : ℕ) → length xs ≤ i → get_elem? xs i ≡ none
get_elem-undefined [] i h = refl
get_elem-undefined (x ∷ xs) zero h = ground arith
get_elem-undefined (x ∷ xs) (suc i) h = get_elem-undefined xs i (omega arith)

-- A lookup that succeeds gives the table's entry, one that fails reports why and gives nothing.
abbrev pub DeviceAt :
    AcceleratorState → ℤ → ℕ → Globals → HrxStatus × Option ℕ → Globals → List RuntimeCall → Type 0
DeviceAt a index device g (status, found) g' t =
    (g' ≡ g)
    × (found ≡ (if is_null device then none else if a.initialized then entry_at a index else none))
    × (hrx_status_code status ≡ (
        if is_null device
        then to_i32 HrxStatusCode.invalid_argument
        else if not a.initialized
        then to_i32 HrxStatusCode.unavailable
        else elim (entry_at a index) [ some d ↦ 0 | none ↦ to_i32 HrxStatusCode.out_of_range ]))

module _ (e : Env RuntimeCall) (doc : Documented e) where
  -- Looking up a CPU device in a counted state changes nothing and does not panic; it gives the
  -- table's entry at the index when the accelerator is initialised and the index is in the table,
  -- and otherwise gives nothing and the code of the reason. Payload allocations do not fail.
  pub hrx_cpu_device_get-DeviceAt :
      (index : ℤ) (device : ℕ) (g : Globals) (t : List RuntimeCall)
      → IsCounted g
      → Ensures (DeviceAt g.cpu index device g) (hrx_cpu_device_get index device e g t)
  unfolding hrx_cpu_device_get hrx_make_status hrx_status_code
  hrx_cpu_device_get-DeviceAt (negsuc i) device g t v = ground (arith, doc.rich t)
  hrx_cpu_device_get-DeviceAt (pos i) device g t v =
      ground
        (arith, doc.rich t, get_elem-defined g.cpu.devices i, get_elem-undefined g.cpu.devices i)

  -- Looking up a GPU device in a counted state changes nothing and does not panic; it gives the
  -- table's entry at the index when the accelerator is initialised and the index is in the table,
  -- and otherwise gives nothing and the code of the reason. Payload allocations do not fail.
  pub hrx_gpu_device_get-DeviceAt :
      (index : ℤ) (device : ℕ) (g : Globals) (t : List RuntimeCall)
      → IsCounted g
      → Ensures (DeviceAt g.gpu index device g) (hrx_gpu_device_get index device e g t)
  unfolding hrx_gpu_device_get hrx_make_status hrx_status_code
  hrx_gpu_device_get-DeviceAt (negsuc i) device g t v = ground (arith, doc.rich t)
  hrx_gpu_device_get-DeviceAt (pos i) device g t v =
      ground
        (arith, doc.rich t, get_elem-defined g.gpu.devices i, get_elem-undefined g.gpu.devices i)

  -- Looking up a device, of the CPU or of the GPU, in a counted state changes nothing and does not
  -- panic; it gives the table's entry at the index when the accelerator is initialised and the index
  -- is in the table, and otherwise gives nothing and the code of the reason. Payload allocations do
  -- not fail.
  pub device_get-DeviceAt :
      (index : ℤ) (device : ℕ) (g : Globals) (t : List RuntimeCall)
      → IsCounted g
      → Ensures (DeviceAt g.cpu index device g) (hrx_cpu_device_get index device e g t)
        × Ensures (DeviceAt g.gpu index device g) (hrx_gpu_device_get index device e g t)
  device_get-DeviceAt index device g t v = (
    hrx_cpu_device_get-DeviceAt index device g t v,
    hrx_gpu_device_get-DeviceAt index device g t v,
  )

module _ (e : Env RuntimeCall) (g : Globals) (t : List RuntimeCall) (count : ℕ) where
  pub hrx_cpu_device_count-same : Ensures (λ _ g' _. g' ≡ g) (hrx_cpu_device_count count e g t)
  unfolding hrx_cpu_device_count
  hrx_cpu_device_count-same = ground arith

  pub hrx_gpu_device_count-same : Ensures (λ _ g' _. g' ≡ g) (hrx_gpu_device_count count e g t)
  unfolding hrx_gpu_device_count
  hrx_gpu_device_count-same = ground arith
