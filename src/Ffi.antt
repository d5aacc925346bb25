-- ===== src/Ffi.antt =====
-- Calls that leave a component: the monad in which every operation of crates/hrx-libhrx is
-- written. A run carries the component's own state and the trace of the calls it has made, newest
-- first. What a call answers is the environment's choice, a function of the whole trace, so a
-- theorem that holds for every environment holds for every behaviour of IREE and of libc.
pub mod Ensures
pub mod Kinds
pub mod Samples
use hrx_system_rs.Base.{ℕ, Option, none, some, List, ◌∷◌, Bool, true, false, String}

-- `iree_status_t`: NULL is success, otherwise a payload with a status code.
abbrev pub IreeStatus : Type 0
IreeStatus = Option ℕ

-- `struct hrx_status_s`. The payload's `strdup`ed message may be NULL.
pub record HrxStatusS : Type 0 where
  pub code : ℕ
  pub message : Option String

-- `hrx_status_t`: NULL is success.
abbrev pub HrxStatus : Type 0
HrxStatus = Option HrxStatusS

-- What a call gives back: its status, the pointer that it writes, and a number.
pub record Reply : Type 0 where
  pub status : IreeStatus
  pub ptr : ℕ
  pub num : ℕ

-- `malloc_fails`: libc's `malloc` of a status payload returns NULL. `dup`: libc's `strdup`.
-- `describe`: the text of `iree_status_to_string`, if it could be formatted.
pub record Env (C : Type 0) : Type 0 where
  pub reply : List C → Reply
  pub malloc_fails : List C → Bool
  pub dup : List C → String → Option String
  pub describe : List C → ℕ → Option String

-- `fault` is a panic, which aborts the process at the C boundary, or a write out of bounds.
pub data Run (C S A : Type 0) : Type 0 where
  done : A → S → List C → Run C S A
  fault : Run C S A

abbrev pub M : Type 0 → Type 0 → Type 0 → Type 0
M C S A = Env C → S → List C → Run C S A

module _ {C S : Type 0} where
  abbrev pub pure : {A : Type 0} → A → M C S A
  pure a e s t = done a s t

  infixl 5 ◌>>=◌ ◌>>◌
  abbrev pub ◌>>=◌ : {A B : Type 0} → M C S A → (A → M C S B) → M C S B
  ◌>>=◌ m f e s t = elim (m e s t) [ done a s' t' ↦ f a e s' t' | fault ↦ fault ]

  abbrev pub ◌>>◌ : {A B : Type 0} → M C S A → M C S B → M C S B
  m >> k = m >>= λ _. k

  abbrev pub call : C → M C S Reply
  call c e s t = done (e.reply (c ∷ t)) s (c ∷ t)

  -- A call whose answer is not used.
  abbrev pub emit : C → M C S (Unit {0})
  emit c e s t = done tt s (c ∷ t)

  abbrev pub get : M C S S
  get e s t = done s s t

  abbrev pub modify : (S → S) → M C S (Unit {0})
  modify f e s t = done tt (f s) t

  abbrev pub panic : {A : Type 0} → M C S A
  panic e s t = fault
