-- ===== src/Objects/Module/Lifetime/Functions.antt =====
-- crates/hrx-libhrx/src/module.rs: the functions of a module, how many of them are alive, and whose they are.
use hrx_system_rs.Base.{
  ℕ, zero, suc, ◌+◌, ◌≡◌, ◌≢◌, some, List, [], ◌∷◌, ◌++◌, ◌==◌, if◌then◌else◌, get_elem?, set,
  arith,
}
use hrx_system_rs.Objects.Module.{FunctionArc}

abbrev pub live_count : List FunctionArc → ℕ
live_count [] = 0
live_count (f ∷ fs) = (if f.strong == 0 then 0 else 1) + live_count fs

-- The functions belong to the module at the address.
abbrev pub AllOf : ℕ → List FunctionArc → Type 0
AllOf address [] = Unit {0}
AllOf address (f ∷ fs) = (f.module_ ≡ address) × AllOf address fs

pub live_count-new :
    (fs : List FunctionArc) (address vm_function : ℕ)
    → live_count (fs ++ record { strong = 1; module_ = address; vm_function = vm_function } ∷ [])
      ≡ live_count fs + 1
live_count-new [] address vm_function = ground arith
live_count-new (f ∷ fs) address vm_function = ground (arith, live_count-new fs address vm_function)

pub AllOf-new :
    (fs : List FunctionArc) (address vm_function : ℕ)
    → AllOf address fs
    → AllOf address (fs ++ record { strong = 1; module_ = address; vm_function = vm_function } ∷ [])
AllOf-new [] address vm_function h = ground arith
AllOf-new (f ∷ fs) address vm_function h = ground (arith, AllOf-new fs address vm_function)

-- A new count of a live function: it dies with the count 0.
pub live_count-set :
    (fs : List FunctionArc) (i n : ℕ) (f : FunctionArc)
    → get_elem? fs i ≡ some f
    → f.strong ≢ 0
    → live_count (set fs i (record f { strong = n })) + (if n == 0 then 1 else 0) ≡ live_count fs
live_count-set [] i n f e h = ground arith
live_count-set (g ∷ fs) zero n f e h = ground arith
live_count-set (g ∷ fs) (suc i) n f e h = ground (arith, live_count-set fs i n f e h)

pub AllOf-get :
    (fs : List FunctionArc) (i address : ℕ) (f : FunctionArc)
    → get_elem? fs i ≡ some f
    → AllOf address fs
    → f.module_ ≡ address
AllOf-get [] i address f e h = ground arith
AllOf-get (g ∷ fs) zero address f e h = ground arith
AllOf-get (g ∷ fs) (suc i) address f e h = ground (arith, AllOf-get fs i address f e)

pub AllOf-set :
    (fs : List FunctionArc) (i n address : ℕ) (f : FunctionArc)
    → get_elem? fs i ≡ some f
    → AllOf address fs
    → AllOf address (set fs i (record f { strong = n }))
AllOf-set [] i n address f e h = ground arith
AllOf-set (g ∷ fs) zero n address f e h = ground arith
AllOf-set (g ∷ fs) (suc i) n address f e h = ground (arith, AllOf-set fs i n address f e)
