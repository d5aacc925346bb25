-- ===== src/Ffi/Ensures.antt =====
-- Total correctness of a run: it does not fault, and its result satisfies a postcondition.
use hrx_system_rs.Base.{List}
use hrx_system_rs.Ffi.{Run, done, fault}

module _ {C S A : Type 0} where
  abbrev pub Ensures : (A → S → List C → Type 0) → Run C S A → Type 0
  Ensures P (done a s t) = P a s t
  Ensures P fault = ⊥

module _ {C S A B : Type 0} where
  -- The rule for a sequence of two steps.
  pub bind :
      (P : A → S → List C → Type 0) (Q : B → S → List C → Type 0) (r : Run C S A)
      (f : A → S → List C → Run C S B)
      → Ensures P r
      → ((a : A) (s : S) (t : List C) → P a s t → Ensures Q (f a s t))
      → Ensures Q (elim r [ done a s t ↦ f a s t | fault ↦ fault ])
  bind P Q (done a s t) f p k = k a s t p
  bind P Q fault f p k = p

module _ {C S A : Type 0} where
  -- A postcondition may be weakened.
  pub mono :
      (P Q : A → S → List C → Type 0) (r : Run C S A)
      → Ensures P r
      → ((a : A) (s : S) (t : List C) → P a s t → Q a s t)
      → Ensures Q r
  mono P Q (done a s t) p k = k a s t p
  mono P Q fault p k = p
