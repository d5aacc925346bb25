-- ===== src/Objects/Module/Client.antt =====
-- A client of crates/hrx-libhrx/src/module.rs: any sequence of calls on a module and on the functions
-- that were looked up in it. It uses a handle only while it has a reference of its own.
use hrx_system_rs.Base.{
  ℕ, zero, suc, ◌+◌, Bool, true, false, Option, none, some, List, [], ◌∷◌, get_elem?,
}
use hrx_system_rs.Ffi.{pure, ◌>>=◌, ◌>>◌, get}
use hrx_system_rs.Objects.Module.{
  FunctionArc, ModuleState, F, hrx_module_retain, hrx_module_release, hrx_module_lookup_function,
  hrx_function_retain, hrx_function_release, hrx_function_invoke,
}

-- The arguments are those of the calls, without the module's handle.
pub data ModuleOp : Type 0 where
  retain release : ModuleOp
  lookup_function : ℕ → List ℕ → ℕ → ModuleOp
  function_retain function_release : ℕ → ModuleOp
  invoke : ℕ → ℕ → ℕ → ℕ → ModuleOp

abbrev pub is_pos : ℕ → Bool
is_pos zero = false
is_pos (suc n) = true

abbrev pub is_live : Option FunctionArc → Bool
is_live none = false
is_live (some f) = is_pos f.strong

abbrev pub live : ℕ → ModuleState → Bool
live i s = is_live (get_elem? s.functions i)

-- A call that the client has no reference for is not made. `n` is the number of the client's references
-- on the module, before and after the call; it holds all references on the functions.
abbrev pub when : Bool → ℕ → F ℕ → F ℕ
when false n m = pure n
when true n m = m

module _ (value_list_vm : ℕ → ℕ) where
  unfoldable pub step : ModuleOp → ℕ → F ℕ
  step retain zero = pure 0
  step retain (suc n) = do s ← get; hrx_module_retain s.address; pure (suc n + 1)
  step release zero = pure 0
  step release (suc n) = do s ← get; hrx_module_release s.address; pure n
  step (lookup_function name text function) zero = pure 0
  step (lookup_function name text function) (suc n) = do
    s ← get
    r ← hrx_module_lookup_function s.address name text function
    pure (suc n)
  step (function_retain i) n = do s ← get; when (live i s) n do hrx_function_retain i; pure n
  step (function_release i) n = do s ← get; when (live i s) n do hrx_function_release i; pure n
  -- The module's handle is compared with that of the function before it is used.
  step (invoke module_ i args rets) n = do
    s ← get
    when (live i s) n do r ← hrx_function_invoke value_list_vm module_ (some i) args rets; pure n

  unfoldable pub run : List ModuleOp → ℕ → F ℕ
  run [] n = pure n
  run (c ∷ cs) n = do m ← step c n; run cs m
