-- ===== src/Objects/Module.antt =====
-- crates/hrx-libhrx/src/module.rs: loading a module, and the functions that keep it alive. The state is
-- the `Arc` of one module with those of the functions that were looked up in it.
pub mod Client
pub mod Loading
pub mod Lifetime
use hrx_system_rs.Base.{
  ℕ, zero, suc, ◌+◌, ◌-◌, Bool, true, false, not, ◌||◌, Option, none, some, List, [], ◌∷◌, ◌++◌,
  ◌==◌, if◌then◌else◌, get_elem?, set, String,
}
use hrx_system_rs.Ffi.{HrxStatus, IreeStatus, pure, panic, ◌>>=◌, ◌>>◌, call, emit, get, modify}
use hrx_system_rs.Hal.{is_null}
use hrx_system_rs.Status.{HrxStatusCode, fail, from_iree}
use hrx_system_rs.Runtime.{SharedState}
use hrx_system_rs.Objects.{
  O, bytecode_module_create, hal_module_create, vm_module_release, device_group_retain,
  device_group_release, context_create_with_modules, context_release, resolve_function, vm_invoke,
  device_retain, device_release,
}

pub record HrxModuleS : Type 0 where
  pub context : ℕ
  pub hal_module : ℕ
  pub bytecode_module : ℕ
  pub device : ℕ

-- A created object that is not NULL: `from_owned(..).expect(..)`.
abbrev expect : {S : Type 0} {A : Type 0} → ℕ → O S A → O S A
expect p rest = if is_null p then panic else rest

abbrev pub Loaded : Type 0
Loaded = HrxStatus × Option HrxModuleS

module _ {S : Type 0} where
  abbrev refuse : HrxStatusCode → String → O S Loaded
  refuse code message = do status ← fail code message; pure (status, none)

  -- An early return drops the wrappers that were made before, in reverse order.
  abbrev or_drop : IreeStatus → O S (Unit {0}) → O S Loaded → O S Loaded
  or_drop none drops rest = rest
  or_drop (some c) drops rest = do status ← from_iree (some c); drops; pure (status, none)

  abbrev loaded : ℕ → ℕ → ℕ → ℕ → O S Loaded
  loaded device context hal_module bytecode_module = do
    emit (device_retain device)
    pure (
      none,
      some (record {
        context = context;
        hal_module = hal_module;
        bytecode_module = bytecode_module;
        device = device;
      }),
    )

-- The VM instance and the flag are those of the runtime's shared state; the device's group is read
-- through its handle. The object behind `*module`, when there is one, stands beside the status.
module _ (shared : SharedState) (hal_device_group : ℕ → ℕ) {S : Type 0} where
  abbrev with_context : ℕ → ℕ → ℕ → O S Loaded
  with_context device bytecode hal_module = do
    r ← call (context_create_with_modules shared.vm_instance (hal_module ∷ bytecode ∷ []))
    or_drop r.status (do emit (vm_module_release hal_module); emit (vm_module_release bytecode))
        (expect r.ptr (loaded device r.ptr hal_module bytecode))

  abbrev with_bytecode : ℕ → ℕ → O S Loaded
  with_bytecode device bytecode = do
    let group = hal_device_group device
    if is_null group
        then (do
          status ← fail HrxStatusCode.failed_precondition "device is missing its HAL device group"
          emit (vm_module_release bytecode)
          pure (status, none))
        else do
          emit (device_group_retain group)
          r ← call (hal_module_create shared.vm_instance group)
          emit (device_group_release group)
          or_drop r.status (emit (vm_module_release bytecode))
              (expect r.ptr (with_context device bytecode r.ptr))

  unfoldable pub hrx_module_load_vmfb : ℕ → ℕ → ℕ → ℕ → O S Loaded
  hrx_module_load_vmfb device vmfb_data vmfb_size module_ =
      if is_null device || is_null vmfb_data || is_null module_
      then refuse HrxStatusCode.invalid_argument "device, vmfb_data, or module is NULL"
      else if vmfb_size == 0
      then refuse HrxStatusCode.invalid_argument "vmfb_size must be > 0"
      else if not shared.initialized || is_null shared.vm_instance
      then refuse HrxStatusCode.unavailable "runtime is not initialized"
      else do
        r ← call (bytecode_module_create shared.vm_instance vmfb_data vmfb_size)
        or_drop r.status (pure tt) (expect r.ptr (with_bytecode device r.ptr))

-- `HrxFunctionS` in its `Arc`: it is freed when `strong` is 0. `module_` is the handle of its module.
pub record FunctionArc : Type 0 where
  pub strong : ℕ
  pub module_ : ℕ
  pub vm_function : ℕ

-- The `Arc` of the module at the handle `address`, and the functions in the order of their lookup. The
-- handle of a function is its position.
pub record ModuleState : Type 0 where
  pub address : ℕ
  pub strong : ℕ
  pub inner : HrxModuleS
  pub functions : List FunctionArc

abbrev pub F : Type 0 → Type 0
F A = O ModuleState A

-- The fields drop in the order of their declaration.
abbrev pub drop_module : HrxModuleS → F (Unit {0})
drop_module m = do
  emit (context_release m.context)
  emit (vm_module_release m.hal_module)
  emit (vm_module_release m.bytecode_module)
  emit (device_release m.device)

-- A count of a freed allocation is an error of the caller, as is a handle of another object.
unfoldable pub hrx_module_retain : ℕ → F (Unit {0})
hrx_module_retain module_ = do
  s ← get
  if not (module_ == s.address) || (s.strong == 0)
      then panic
      else modify (λ s. record s { strong = s.strong + 1 })

unfoldable pub hrx_module_release : ℕ → F (Unit {0})
hrx_module_release module_ = do
  s ← get
  if not (module_ == s.address) || (s.strong == 0) then panic else do
    modify λ s. record s { strong = s.strong - 1 }
    if s.strong == 1 then drop_module s.inner else pure tt

abbrev module_ref : ℕ → F HrxModuleS
module_ref module_ = do
  s ← get
  if not (module_ == s.address) || (s.strong == 0) then panic else pure s.inner

-- `into_handle` of a new function.
abbrev add_function : FunctionArc → ModuleState → ModuleState
add_function f s = record s { functions = s.functions ++ f ∷ [] }

abbrev resolved : ℕ → IreeStatus → ℕ → F HrxStatus
resolved module_ (some c) vm_function = from_iree (some c)
resolved module_ none vm_function = do
  hrx_module_retain module_
  modify (add_function (record { strong = 1; module_ = module_; vm_function = vm_function }))
  pure none

-- The arguments `name` and `function` are the caller's pointers.
unfoldable pub hrx_module_lookup_function : ℕ → ℕ → List ℕ → ℕ → F HrxStatus
unfolding hrx_module_retain
hrx_module_lookup_function module_ name text function =
    if is_null module_ || is_null name || is_null function
    then fail HrxStatusCode.invalid_argument "module, name, or function is NULL"
    else do
      m ← module_ref module_
      r ← call (resolve_function m.context text)
      resolved module_ r.status r.num

abbrev live_function : Option FunctionArc → F FunctionArc
live_function none = panic
live_function (some f) = if f.strong == 0 then panic else pure f

abbrev function_ref : ℕ → F FunctionArc
function_ref i = do s ← get; live_function (get_elem? s.functions i)

abbrev set_count : ℕ → FunctionArc → ℕ → ModuleState → ModuleState
set_count i f n s = record s { functions = set s.functions i (record f { strong = n }) }

unfoldable pub hrx_function_retain : ℕ → F (Unit {0})
hrx_function_retain i = do f ← function_ref i; modify (set_count i f (f.strong + 1))

-- The last release drops the `ModuleRef`.
unfoldable pub hrx_function_release : ℕ → F (Unit {0})
unfolding hrx_module_release
hrx_function_release i = do
  f ← function_ref i
  modify (set_count i f (f.strong - 1))
  if f.strong == 1 then hrx_module_release f.module_ else pure tt

-- The lists of arguments and results are read through their handles, NULL for none.
module _ (value_list_vm : ℕ → ℕ) where
  abbrev list_or_null : ℕ → ℕ
  list_or_null p = if is_null p then 0 else value_list_vm p

  -- `function` is NULL, or the handle of the function at a position.
  unfoldable pub hrx_function_invoke : ℕ → Option ℕ → ℕ → ℕ → F HrxStatus
  hrx_function_invoke module_ none args rets =
      fail HrxStatusCode.invalid_argument "module or function is NULL"
  hrx_function_invoke module_ (some i) args rets =
      if is_null module_
      then fail HrxStatusCode.invalid_argument "module or function is NULL"
      else do
        f ← function_ref i
        if not (f.module_ == module_)
            then fail HrxStatusCode.invalid_argument "function does not belong to module"
            else do
              m ← module_ref module_
              r ← call (vm_invoke m.context f.vm_function (list_or_null args) (list_or_null rets))
              from_iree r.status
