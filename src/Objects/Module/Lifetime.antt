-- ===== src/Objects/Module/Lifetime.antt =====
-- crates/hrx-libhrx/src/module.rs and handle.rs: the life of a module and of its functions.
mod Functions
use hrx_system_rs.Base.{
  ℕ, zero, suc, ◌+◌, ◌-◌, ◌≡◌, refl, ◌⊎◌, Option, Option-cases, inl, inr, none, some, List, [], ◌∷◌,
  ◌==◌, if◌then◌else◌, get_elem?, arith,
}
use hrx_system_rs.Ffi.{Env, Run, done, fault, ◌>>=◌, pure}
use hrx_system_rs.Ffi.Ensures.{Ensures, bind}
use hrx_system_rs.Objects.{
  ObjectCall, vm_module_release, context_release, device_release, resolve_function, vm_invoke,
}
use hrx_system_rs.Objects.Module.{
  HrxModuleS, FunctionArc, ModuleState, F, hrx_module_retain, hrx_module_release,
  hrx_module_lookup_function, hrx_function_retain, hrx_function_release, hrx_function_invoke,
}
use hrx_system_rs.Objects.Module.Client.{
  ModuleOp, retain, release, lookup_function, function_retain, function_release, invoke, step, run,
  when, is_live, live,
}
use Functions.{live_count, AllOf, live_count-new, AllOf-new, live_count-set, AllOf-set, AllOf-get}

zero_or_suc : (n : ℕ) → (n ≡ 0) ⊎ ((k : ℕ) × (n ≡ suc k))
zero_or_suc zero = inl refl
zero_or_suc (suc k) = inr (k, refl)

abbrev prepend_release : ObjectCall → List ObjectCall → List ObjectCall
prepend_release (context_release c) rest = context_release c ∷ rest
prepend_release (vm_module_release m) rest = vm_module_release m ∷ rest
prepend_release (device_release d) rest = device_release d ∷ rest
prepend_release _ rest = rest

-- What a trace gives back, the last one first.
abbrev pub releases : List ObjectCall → List ObjectCall
releases [] = []
releases (c ∷ t) = prepend_release c (releases t)

-- The context before the modules that it was made of, and the device last.
abbrev pub teardown : HrxModuleS → List ObjectCall
teardown m =
    device_release m.device
    ∷ vm_module_release m.bytecode_module
    ∷ vm_module_release m.hal_module
    ∷ context_release m.context
    ∷ []

abbrev UseOf : HrxModuleS → ObjectCall → List ObjectCall → Type 0
UseOf m (resolve_function c name) t = (c ≡ m.context) × (releases t ≡ [])
UseOf m (vm_invoke c f args rets) t = (c ≡ m.context) × (releases t ≡ [])
UseOf m _ t = Unit {0}

-- Every lookup and every invocation was made in the module's context before it was given back.
abbrev pub UsesLive : HrxModuleS → List ObjectCall → Type 0
UsesLive m [] = Unit {0}
UsesLive m (c ∷ t) = UseOf m c t × UsesLive m t

-- `n` is the number of the client's references on the module.
pub record Lives (m : HrxModuleS) (n : ℕ) (s : ModuleState) (t : List ObjectCall) : Type 0 where
  pub counted : s.strong ≡ n + live_count s.functions
  pub same : s.inner ≡ m
  pub owned : AllOf s.address s.functions
  pub given_back : releases t ≡ (if s.strong == 0 then teardown m else [])
  pub used : UsesLive m t

module _ (m : HrxModuleS) (e : Env ObjectCall) where
  abbrev After : {A : Type 0} → ℕ → A → ModuleState → List ObjectCall → Type 0
  After n _ s t = Lives m n s t

  retain-Lives :
      (n : ℕ) (s : ModuleState) (t : List ObjectCall)
      → Lives m (suc n) s t
      → Ensures (After (suc n + 1)) (hrx_module_retain s.address e s t)
  unfolding hrx_module_retain
  retain-Lives n s t h = ground arith

  release-Lives :
      (n : ℕ) (s : ModuleState) (t : List ObjectCall)
      → Lives m (suc n) s t
      → Ensures (After n) (hrx_module_release s.address e s t)
  unfolding hrx_module_release
  release-Lives n s t h = ground arith

  lookup-Lives :
      (name function n : ℕ) (text : List ℕ) (s : ModuleState) (t : List ObjectCall)
      → Lives m (suc n) s t
      → Ensures (After (suc n)) (hrx_module_lookup_function s.address name text function e s t)
  unfolding hrx_module_lookup_function
  lookup-Lives name function n text s t h = grind (arith, live_count-new, AllOf-new)

  module _ (i n : ℕ) (s : ModuleState) (t : List ObjectCall) (f : FunctionArc)
      (found : get_elem? s.functions i ≡ some f) (k : ℕ) (held : f.strong ≡ suc k)
      (h : Lives m n s t) where
    function_retain-Lives : Ensures (After n) (hrx_function_retain i e s t)
    unfolding hrx_function_retain
    function_retain-Lives = ground (
      arith,
      live_count-set s.functions i (f.strong + 1) f found,
      AllOf-set s.functions i (f.strong + 1) s.address f found,
    )

    function_release-Lives : Ensures (After n) (hrx_function_release i e s t)
    unfolding hrx_function_release
    function_release-Lives = ground (
      arith,
      live_count-set s.functions i (f.strong - 1) f found,
      AllOf-set s.functions i (f.strong - 1) s.address f found,
      AllOf-get s.functions i s.address f found,
    )

    invoke-Lives :
        (vm : ℕ → ℕ) (module_ args rets : ℕ)
        → Ensures (After n) (hrx_function_invoke vm module_ (some i) args rets e s t)
    unfolding hrx_function_invoke
    invoke-Lives vm module_ args rets =
        ground
          (arith, live_count-set s.functions i 0 f found, AllOf-get s.functions i s.address f found)

  kept :
      {A : Type 0} (k : ℕ) (r : Run ObjectCall ModuleState A)
      → Ensures (After k) r
      → Ensures (λ n s t. Lives m n s t) (elim r [ done a s t ↦ done k s t | fault ↦ fault ])
  kept k (done a s t) h = h
  kept k fault h = h

  -- The call is made with a live function, or is not made.
  on_function :
      {A : Type 0} (i n : ℕ) (s : ModuleState) (t : List ObjectCall) (o : Option FunctionArc)
      (call_ : F A)
      → Lives m n s t
      → get_elem? s.functions i ≡ o
      → ((f : FunctionArc) (k : ℕ)
          → get_elem? s.functions i ≡ some f
          → f.strong ≡ suc k
          → Ensures (After n) (call_ e s t))
      → Ensures (λ n s t. Lives m n s t) (when (is_live o) n (call_ >>= λ _. pure n) e s t)
  on_function i n s t none call_ h found k = h
  on_function i n s t (some f) call_ h found k = elim (zero_or_suc f.strong) [
    | inl dead ↦ rw dead h
    | inr (j, held) ↦ rw held (kept n (call_ e s t) (k f j found held))
  ]

  step-Lives :
      (vm : ℕ → ℕ) (c : ModuleOp) (n : ℕ) (s : ModuleState) (t : List ObjectCall)
      → Lives m n s t
      → Ensures (λ n s t. Lives m n s t) (step vm c n e s t)
  unfolding step
  step-Lives vm retain zero s t h = h
  step-Lives vm retain (suc n) s t h =
      kept (suc n + 1) (hrx_module_retain s.address e s t) (retain-Lives n s t h)
  step-Lives vm release zero s t h = h
  step-Lives vm release (suc n) s t h =
      kept n (hrx_module_release s.address e s t) (release-Lives n s t h)
  step-Lives vm (lookup_function name text function) zero s t h = h
  step-Lives vm (lookup_function name text function) (suc n) s t h =
      kept (suc n) (hrx_module_lookup_function s.address name text function e s t)
        (lookup-Lives name function n text s t h)
  step-Lives vm (function_retain i) n s t h =
      on_function i n s t _ (hrx_function_retain i) h refl
        λ f k found held. function_retain-Lives i n s t f found k held h
  step-Lives vm (function_release i) n s t h =
      on_function i n s t _ (hrx_function_release i) h refl
        λ f k found held. function_release-Lives i n s t f found k held h
  step-Lives vm (invoke module_ i args rets) n s t h =
      on_function i n s t _ (hrx_function_invoke vm module_ (some i) args rets) h refl
        λ f k found held. invoke-Lives i n s t f found k held h vm module_ args rets

  run-Lives :
      (vm : ℕ → ℕ) (cs : List ModuleOp) (n : ℕ) (s : ModuleState) (t : List ObjectCall)
      → Lives m n s t
      → Ensures (λ n s t. Lives m n s t) (run vm cs n e s t)
  unfolding run
  run-Lives vm [] n s t h = h
  run-Lives vm (c ∷ cs) n s t h =
      bind (λ n s t. Lives m n s t) (λ n s t. Lives m n s t) (step vm c n e s t)
        (λ n s t. run vm cs n e s t) (step-Lives vm c n s t h) λ n s t h. run-Lives vm cs n s t h

-- A client uses a module, and the functions that it looks up in it, only through references that it
-- holds; any sequence of its calls ends without a fault. The module's count is then the number of its
-- own references and of the functions that are alive. While it is not 0 nothing has been given back,
-- and with it the context, the two VM modules and the device reference have been given back once each,
-- in this order; every lookup and every invocation was made before that, in the module's own context.
pub run-new_module-Lives :
    (e : Env ObjectCall) (value_list_vm : ℕ → ℕ) (address : ℕ) (m : HrxModuleS) (cs : List ModuleOp)
    → Ensures
        (λ n s t. Lives m n s t)
        (run value_list_vm cs 1 e
          (record { address = address; strong = 1; inner = m; functions = [] })
          [])
run-new_module-Lives e value_list_vm address m cs =
    run-Lives m e value_list_vm cs 1 _ [] (ground arith)
