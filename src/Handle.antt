-- ===== src/Handle.antt =====
-- crates/hrx-libhrx/src/handle.rs, for an object of any type: the `Arc` behind an opaque handle. The
-- object's `Drop` is the list of the releases that its fields make, in the order of their declaration.
pub mod Objects
pub mod Client
pub mod Lifetime
use hrx_system_rs.Base.{ℕ, ◌+◌, ◌-◌, Option, none, some, List, [], ◌∷◌, ◌==◌, if◌then◌else◌}
use hrx_system_rs.Ffi.{M, pure, panic, ◌>>=◌, ◌>>◌, emit, get, modify}

-- The allocation is freed when `strong` is 0.
pub record Counted (T : Type 0) : Type 0 where
  pub strong : ℕ
  pub inner : T

-- The new handle owns one reference.
unfoldable pub into_handle : {T : Type 0} → T → Counted T
into_handle object = record { strong = 1; inner = object }

module _ {C T : Type 0} where
  unfoldable pub release_all : List C → M C (Counted T) (Unit {0})
  release_all [] = pure tt
  release_all (c ∷ cs) = do emit c; release_all cs

  -- A count of a freed allocation is an error of the caller.
  unfoldable pub handle_retain : M C (Counted T) (Unit {0})
  handle_retain = do
    a ← get
    if a.strong == 0 then panic else modify (λ a. record a { strong = a.strong + 1 })

  abbrev pub handle_ref : M C (Counted T) T
  handle_ref = do a ← get; if a.strong == 0 then panic else pure a.inner

  abbrev taken : ℕ → T → M C (Counted T) (Option T)
  taken n object = if n == 1 then pure (some object) else pure none

  -- `Arc::into_inner`: the object is moved out with the last reference, and is not dropped.
  unfoldable pub into_inner_handle : M C (Counted T) (Option T)
  into_inner_handle = do
    a ← get
    if a.strong == 0
        then panic
        else do modify λ a. record a { strong = a.strong - 1 }; taken a.strong a.inner

  module _ (drops : T → List C) where
    unfoldable pub handle_release : M C (Counted T) (Unit {0})
    unfolding release_all
    handle_release = do
      a ← get
      if a.strong == 0 then panic else do
        modify λ a. record a { strong = a.strong - 1 }
        if a.strong == 1 then release_all (drops a.inner) else pure tt
