-- ===== src/Runtime/Counts.antt =====
-- crates/hrx-libhrx/src/runtime.rs: the reference count of the shared state.
use hrx_system_rs.Base.{
  ℕ, ◌+◌, ◌*◌, ◌≤◌, ◌≡◌, ◌≢◌, Bool, true, false, none, some, List, ◌∷◌, ltb, arith, length,
}
use hrx_system_rs.Ffi.{Env, HrxStatus, IreeStatus}
use hrx_system_rs.Ffi.Ensures.{Ensures}
use hrx_system_rs.Status.{hrx_status_from_iree, hrx_code_from_iree, hrx_make_status}
use hrx_system_rs.Runtime.{
  SharedState, AcceleratorState, Globals, RuntimeCall, create_default_device,
  create_device_by_ordinal, device_group_create, device_allocator,
}
use hrx_system_rs.Runtime.Shared.{
  ensure_shared_state, release_shared_state, create_single_device_group, new_device,
}

-- libc's `malloc` of a status payload never fails, and a call of IREE that succeeds makes an object.
pub record Documented (e : Env RuntimeCall) : Type 0 where
  pub rich : (t : List RuntimeCall) → e.malloc_fails t ≡ false
  pub device :
      (driver pool : ℕ) (t : List RuntimeCall)
      → (e.reply (create_default_device driver pool ∷ t)).status ≡ none
      → (e.reply (create_default_device driver pool ∷ t)).ptr ≢ 0
  pub ordinal :
      (driver index pool : ℕ) (t : List RuntimeCall)
      → (e.reply (create_device_by_ordinal driver index pool ∷ t)).status ≡ none
      → (e.reply (create_device_by_ordinal driver index pool ∷ t)).ptr ≢ 0
  pub group :
      (hal_device tracker : ℕ) (t : List RuntimeCall)
      → (e.reply (device_group_create hal_device tracker ∷ t)).status ≡ none
      → (e.reply (device_group_create hal_device tracker ∷ t)).ptr ≢ 0
  pub allocator :
      (hal_device : ℕ) (t : List RuntimeCall) → (e.reply (device_allocator hal_device ∷ t)).ptr ≢ 0

abbrev Released : Bool → SharedState → Type 0
Released true s = Unit {0}
Released false s = (s.vm_instance ≡ 0) × (s.proactor_pool ≡ 0)

-- The shared state with `n` references: it is initialised exactly when n is positive, and holds no
-- pointer otherwise.
pub record Shares (n : ℕ) (s : SharedState) : Type 0 where
  pub counted : s.init_count ≡ n
  pub live : s.initialized ≡ ltb 0 n
  pub released : Released s.initialized s

-- The accelerators are as they were.
abbrev pub SameRest : Globals → Globals → Type 0
SameRest g g' = (g'.cpu ≡ g.cpu) × (g'.gpu ≡ g.gpu)

abbrev pub Ensured : ℕ → Globals → HrxStatus → Globals → List RuntimeCall → Type 0
Ensured n g none g' t = SameRest g g' × Shares (n + 1) g'.shared
Ensured n g (some p) g' t = SameRest g g' × Shares n g'.shared

-- A group that is made is not NULL.
abbrev pub Grouped : IreeStatus × ℕ → Type 0
Grouped (none, p) = p ≢ 0
Grouped (some c, p) = Unit {0}

module _ (e : Env RuntimeCall) (doc : Documented e) where
  from_iree-ne-none : (t : List RuntimeCall) (c : ℕ) → hrx_status_from_iree e t (some c) ≢ none
  unfolding hrx_status_from_iree hrx_make_status hrx_code_from_iree
  from_iree-ne-none t c eq = ground (arith, doc.rich t)

  pub ensure_shared_state-Ensured :
      (n : ℕ) (g : Globals) (t : List RuntimeCall)
      → Shares n g.shared
      → Ensures (Ensured n g) (ensure_shared_state e g t)
  unfolding ensure_shared_state
  ensure_shared_state-Ensured n g t h = grind (arith, from_iree-ne-none)

  pub release_shared_state-Shares :
      (n : ℕ) (g : Globals) (t : List RuntimeCall)
      → Shares (n + 1) g.shared
      → Ensures (λ _ g' _. SameRest g g' × Shares n g'.shared) (release_shared_state e g t)
  unfolding release_shared_state
  release_shared_state-Shares n g t h = ground arith

  pub group-Grouped :
      (hal_device : ℕ) (g : Globals) (t : List RuntimeCall)
      → Ensures (λ r g' _. (g' ≡ g) × Grouped r) (create_single_device_group hal_device e g t)
  unfolding create_single_device_group
  group-Grouped hal_device g t = grind (arith, doc.group)

  pub new_device-same :
      (accelerator ordinal hal_device group : ℕ) (g : Globals) (t : List RuntimeCall)
      → hal_device ≢ 0
      → group ≢ 0
      → Ensures (λ _ g' _. g' ≡ g) (new_device accelerator ordinal hal_device group e g t)
  unfolding new_device
  new_device-same accelerator ordinal hal_device group g t h k =
      ground (arith, doc.allocator hal_device t)

abbrev as_count : Bool → ℕ
as_count true = 1
as_count false = 0

abbrev pub running : Globals → ℕ
running g = as_count g.cpu.initialized + as_count g.gpu.initialized

-- The device count is the number of devices, 64 at most, and is 0 for an accelerator that is not
-- initialised.
pub record Sized (a : AcceleratorState) : Type 0 where
  pub sized : length a.devices ≡ a.device_count
  pub bounded : a.device_count ≤ 64
  pub idle : a.device_count ≤ 64 * as_count a.initialized

pub record IsCounted (g : Globals) : Type 0 where
  pub shares : Shares (running g) g.shared
  pub cpu_sized : Sized g.cpu
  pub gpu_sized : Sized g.gpu

-- A call that failed left both accelerators as they were.
abbrev pub Atomic : Globals → HrxStatus → Globals → List RuntimeCall → Type 0
Atomic g none g' t = IsCounted g'
Atomic g (some p) g' t = IsCounted g' × SameRest g g'
