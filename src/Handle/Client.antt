-- ===== src/Handle/Client.antt =====
-- A client of a handle of crates/hrx-libhrx/src/handle.rs: any sequence of counts and uses that keeps to
-- its references.
use hrx_system_rs.Base.{ℕ, zero, suc, Option, none, some, List, [], ◌∷◌}
use hrx_system_rs.Ffi.{M, pure, ◌>>=◌, ◌>>◌, emit}
use hrx_system_rs.Handle.{Counted, handle_retain, handle_release, handle_ref, into_inner_handle}

-- `use_` is a call that is made with the borrowed object.
pub data HandleOp (C T : Type 0) : Type 0 where
  retain release into_inner : HandleOp C T
  use_ : (T → C) → HandleOp C T

-- `moved` is the object that was moved out, if one was.
module _ {C T : Type 0} (drops : T → List C) where
  unfoldable pub step : HandleOp C T → Option T → M C (Counted T) (Option T)
  step retain moved = do handle_retain; pure moved
  step release moved = do handle_release drops; pure moved
  step into_inner moved = into_inner_handle
  step (use_ f) moved = do object ← handle_ref; emit (f object); pure moved

  unfoldable pub run : List (HandleOp C T) → Option T → M C (Counted T) (Option T)
  run [] moved = pure moved
  run (c ∷ cs) moved = do m ← step c moved; run cs m

module _ {C T : Type 0} where
  -- The references left after a call with `n` of them: `none` when there was none to call with.
  abbrev pub after : HandleOp C T → ℕ → Option ℕ
  after c zero = none
  after retain (suc n) = some (suc (suc n))
  after release (suc n) = some n
  after into_inner (suc n) = some n
  after (use_ f) (suc n) = some (suc n)

  abbrev pub references : List (HandleOp C T) → Option ℕ → Option ℕ
  references cs none = none
  references [] (some n) = some n
  references (c ∷ cs) (some n) = references cs (after c n)
