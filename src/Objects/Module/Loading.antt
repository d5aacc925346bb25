-- ===== src/Objects/Module/Loading.antt =====
-- crates/hrx-libhrx/src/module.rs: what the loading of a module holds in the end.
use hrx_system_rs.Base.{ℕ, ◌≡◌, ◌≢◌, Option, none, some, List, ◌∷◌, arith}
use hrx_system_rs.Ffi.{Env, Reply}
use hrx_system_rs.Ffi.Ensures.{Ensures}
use hrx_system_rs.Ffi.Kinds.{Kind, held, when_ok}
use hrx_system_rs.Runtime.{SharedState}
use hrx_system_rs.Objects.{
  ObjectCall, bytecode_module_create, hal_module_create, vm_module_release, device_group_retain,
  device_group_release, context_create_with_modules, context_release, device_retain, device_release,
}
use hrx_system_rs.Objects.Module.{HrxModuleS, hrx_module_load_vmfb}

abbrev opens_module : ObjectCall → Reply → Option ℕ
opens_module (bytecode_module_create i p n) r = when_ok r.status r.ptr
opens_module (hal_module_create i g) r = when_ok r.status r.ptr
opens_module _ r = none

abbrev closes_module : ObjectCall → Option ℕ
closes_module (vm_module_release m) = some m
closes_module _ = none

abbrev pub vm_modules : Kind ObjectCall
vm_modules = record { opens = opens_module; closes = closes_module }

abbrev opens_context : ObjectCall → Reply → Option ℕ
opens_context (context_create_with_modules i ms) r = when_ok r.status r.ptr
opens_context _ r = none

abbrev closes_context : ObjectCall → Option ℕ
closes_context (context_release c) = some c
closes_context _ = none

abbrev pub contexts : Kind ObjectCall
contexts = record { opens = opens_context; closes = closes_context }

abbrev opens_group : ObjectCall → Reply → Option ℕ
opens_group (device_group_retain g) r = some g
opens_group _ r = none

abbrev closes_group : ObjectCall → Option ℕ
closes_group (device_group_release g) = some g
closes_group _ = none

abbrev pub group_refs : Kind ObjectCall
group_refs = record { opens = opens_group; closes = closes_group }

abbrev opens_device : ObjectCall → Reply → Option ℕ
opens_device (device_retain d) r = some d
opens_device _ r = none

abbrev closes_device : ObjectCall → Option ℕ
closes_device (device_release d) = some d
closes_device _ = none

abbrev pub device_refs : Kind ObjectCall
device_refs = record { opens = opens_device; closes = closes_device }

-- A creation that succeeds makes an object, as IREE documents.
abbrev Creates : ObjectCall → Type 0 → Type 0
Creates (bytecode_module_create i p n) P = P
Creates (hal_module_create i g) P = P
Creates (context_create_with_modules i ms) P = P
Creates _ P = Unit {0}

abbrev pub MakesModules : Env ObjectCall → Type 0
MakesModules e =
    (c : ObjectCall) (t : List ObjectCall)
    → (e.reply (c ∷ t)).status ≡ none
    → Creates c ((e.reply (c ∷ t)).ptr ≢ 0)

-- What the object holds besides what was held before.
abbrev pub modules_of : Option HrxModuleS → List ℕ → List ℕ
modules_of none ms = ms
modules_of (some m) ms = m.hal_module ∷ m.bytecode_module ∷ ms

abbrev pub contexts_of : Option HrxModuleS → List ℕ → List ℕ
contexts_of none cs = cs
contexts_of (some m) cs = m.context ∷ cs

abbrev pub devices_of : Option HrxModuleS → List ℕ → List ℕ
devices_of none ds = ds
devices_of (some m) ds = m.device ∷ ds

-- Loading a module never faults when a successful creation makes an object. It ends with the VM
-- modules, the contexts and the device references that were held before, and those of the new module
-- when there is one, whichever call fails; the reference on the device group is given back.
pub hrx_module_load_vmfb-held :
    (shared : SharedState) (hal_device_group : ℕ → ℕ) (e : Env ObjectCall) {S : Type 0} (s : S)
    (t : List ObjectCall) (device vmfb_data vmfb_size module_ : ℕ) (ms cs gs ds : List ℕ)
    → MakesModules e
    → held vm_modules e t ≡ some ms
    → held contexts e t ≡ some cs
    → held group_refs e t ≡ some gs
    → held device_refs e t ≡ some ds
    → Ensures
        (λ made _ t'.
          (held vm_modules e t' ≡ some (modules_of made.1 ms))
          × (held contexts e t' ≡ some (contexts_of made.1 cs))
          × (held group_refs e t' ≡ some gs)
          × (held device_refs e t' ≡ some (devices_of made.1 ds)))
        (hrx_module_load_vmfb shared hal_device_group device vmfb_data vmfb_size module_ e s t)
unfolding hrx_module_load_vmfb
hrx_module_load_vmfb-held shared hal_device_group e s t device vmfb_data vmfb_size module_ ms cs gs
      ds makes h1 h2 h3 h4 =
    grind (arith, makes)
