-- ===== src/Handle/Lifetime.antt =====
-- crates/hrx-libhrx/src/handle.rs: the life of an object behind a handle.
use hrx_system_rs.Base.{
  ℕ, zero, suc, ◌+◌, ◌≡◌, ◌≢◌, refl, sym, ap, Option, none, some, List, [], ◌∷◌, ◌-◌, ◌==◌, false,
  if◌then◌else◌, arith,
}
use mathlib.Core.Path.{subst}
use hrx_system_rs.Ffi.{Env, done, fault}
use hrx_system_rs.Ffi.Ensures.{Ensures}
use hrx_system_rs.Handle.{
  Counted, into_handle, handle_retain, handle_release, into_inner_handle, release_all,
}
use hrx_system_rs.Handle.Client.{HandleOp, retain, release, into_inner, use_, step, run, references}

-- A list reversed onto another one: the order of calls in a trace.
abbrev pub onto : {C : Type 0} → List C → List C → List C
onto [] t = t
onto (c ∷ cs) t = onto cs (c ∷ t)

module _ {C T : Type 0} (object : T) where
  -- The calls that the client made with the object.
  abbrev pub uses : List (HandleOp C T) → List C → List C
  uses [] t = t
  uses (retain ∷ cs) t = uses cs t
  uses (release ∷ cs) t = uses cs t
  uses (into_inner ∷ cs) t = uses cs t
  uses (use_ f ∷ cs) t = uses cs (f object ∷ t)

  -- The object was moved out with the last reference, or dropped with it, or is alive.
  abbrev pub Ends : (T → List C) → ℕ → List C → Option T → List C → Type 0
  Ends drops (suc n) before moved t = (moved ≡ none) × (t ≡ before)
  Ends drops zero before none t = t ≡ onto (drops object) before
  Ends drops zero before (some m) t = (m ≡ object) × (t ≡ before)

abbrev counted_at : {T : Type 0} → ℕ → Counted T → Counted T
counted_at n s = record s { strong = n }

suc_ne : (n : ℕ) → (suc n == 0) ≡ false
suc_ne n = ground arith

module _ {C T : Type 0} (drops : T → List C) (e : Env C) (object : T) where
  release_all_lem :
      (cs : List C) (s : Counted T) (t : List C) → release_all cs e s t ≡ done tt s (onto cs t)
  unfolding release_all
  release_all_lem [] s t = refl
  release_all_lem (c ∷ cs) s t = release_all_lem cs s (c ∷ t)

  module _ (s : Counted T) (t : List C) (n : ℕ) (counted : s.strong ≡ suc n) where
    retain_lem : step drops retain none e s t ≡ done none (counted_at (s.strong + 1) s) t
    unfolding step handle_retain
    retain_lem = ground arith

    release_lem :
        step drops release none e s t
        ≡ done none (counted_at (s.strong - 1) s) (if n == 0 then onto (drops s.inner) t else t)
    unfolding step handle_release
    release_lem = ground (arith, release_all_lem (drops s.inner) (counted_at (s.strong - 1) s) t)

    into_inner_lem :
        step drops into_inner none e s t
        ≡ done (if n == 0 then some s.inner else none) (counted_at (s.strong - 1) s) t
    unfolding step into_inner_handle
    into_inner_lem = ground arith

    use_lem :
        (f : T → C) → s.inner ≡ object → step drops (use_ f) none e s t ≡ done none s (f object ∷ t)
    unfolding step
    use_lem f same = ground (arith, ap f same)

  some-inj : (a b : ℕ) → some a ≡ some b → a ≡ b
  some-inj a b h = cc

  references-none : (cs : List (HandleOp C T)) (k : ℕ) → references cs none ≢ some k
  references-none [] k h = cc
  references-none (c ∷ cs) k h = cc

  abbrev Result : ℕ → List C → Option T → Counted T → List C → Type 0
  Result k before moved s t = (s.strong ≡ k) × Ends object drops k before moved t

  -- With no reference left there is no further call.
  spent :
      (cs : List (HandleOp C T)) (k : ℕ) (moved : Option T) (s : Counted T) (t before : List C)
      → s.strong ≡ 0
      → Ends object drops 0 before moved t
      → references cs (some 0) ≡ some k
      → Ensures (Result k (uses object cs before)) (run drops cs moved e s t)
  unfolding run
  spent [] k moved s t before h ends eq = rw (← some-inj 0 k eq) (h, ends)
  spent (c ∷ cs) k moved s t before h ends eq = absurd (references-none cs k eq)

  -- A step that is known, before the rest of a run.
  go_on :
      (P : Option T → Counted T → List C → Type 0) (c : HandleOp C T) (cs : List (HandleOp C T))
      (moved m : Option T) (s s' : Counted T) (t t' : List C)
      → step drops c moved e s t ≡ done m s' t'
      → Ensures P (run drops cs m e s' t')
      → Ensures P (run drops (c ∷ cs) moved e s t)
  unfolding run
  go_on P c cs moved m s s' t t' known h =
      subst (λ r. Ensures P (elim r [ done m s t ↦ run drops cs m e s t | fault ↦ fault ]))
        (sym known) h

  alive :
      (cs : List (HandleOp C T)) (n k : ℕ) (s : Counted T) (t : List C)
      → s.strong ≡ suc n
      → s.inner ≡ object
      → references cs (some (suc n)) ≡ some k
      → Ensures (Result k (uses object cs t)) (run drops cs none e s t)
  unfolding run
  alive [] n k s t counted same eq = rw (← some-inj (suc n) k eq) (counted, (refl, refl))
  alive (retain ∷ cs) n k s t counted same eq =
      go_on _ retain cs none none s (counted_at (s.strong + 1) s) t t (retain_lem s t n counted)
        (alive cs (suc n) k (counted_at (s.strong + 1) s) t (omega arith) same eq)
  alive (release ∷ cs) zero k s t counted same eq =
      go_on _ release cs none none s (counted_at (s.strong - 1) s) t (onto (drops s.inner) t)
        (release_lem s t 0 counted)
        (spent cs k none (counted_at (s.strong - 1) s) (onto (drops s.inner) t) t (omega arith)
          (rw same) eq)
  alive (release ∷ cs) (suc n) k s t counted same eq =
      go_on _ release cs none none s (counted_at (s.strong - 1) s) t t
        (rw (suc_ne n) at (release_lem s t (suc n) counted))
        (alive cs n k (counted_at (s.strong - 1) s) t (omega arith) same eq)
  alive (into_inner ∷ cs) zero k s t counted same eq =
      go_on _ into_inner cs none (some s.inner) s (counted_at (s.strong - 1) s) t t
        (into_inner_lem s t 0 counted)
        (spent cs k (some s.inner) (counted_at (s.strong - 1) s) t t (omega arith) (same, refl) eq)
  alive (into_inner ∷ cs) (suc n) k s t counted same eq =
      go_on _ into_inner cs none none s (counted_at (s.strong - 1) s) t t
        (rw (suc_ne n) at (into_inner_lem s t (suc n) counted))
        (alive cs n k (counted_at (s.strong - 1) s) t (omega arith) same eq)
  alive (use_ f ∷ cs) n k s t counted same eq =
      go_on _ (use_ f) cs none none s s t (f object ∷ t) (use_lem s t n counted f same)
        (alive cs n k s (f object ∷ t) counted same eq)

-- Any use of a new handle that keeps to its references, by which `k` are left, ends without a panic, and
-- makes the client's calls on the object in their order. While there are references nothing else is
-- called and the object is not moved out; with the last one it is moved out, or its fields are released
-- once each, in the order of their declaration and after every use.
pub run-into_handle-Ends :
    {C T : Type 0} (drops : T → List C) (e : Env C) (object : T) (cs : List (HandleOp C T)) (k : ℕ)
    → references cs (some 1) ≡ some k
    → Ensures
        (λ moved s t. (s.strong ≡ k) × Ends object drops k (uses object cs []) moved t)
        (run drops cs none e (into_handle object) [])
unfolding into_handle
run-into_handle-Ends drops e object cs k eq =
    alive drops e object cs 0 k (into_handle object) [] refl refl eq
