-- ===== src/Hip/Intercept/Loading.antt =====
-- Lemmas on `load_all!` of crates/hip-intercept/src/lib.rs, which fills the real table.
use hrx_system_rs.Base.{
  String, ℕ, ◌≡◌, refl, sym, ◌∙◌, ap, ◌⊎◌, inl, inr, true, false, Bool-cases, Option, some, List,
  [], ◌∷◌, ◌==◌,
}
use hrx_system_rs.Ffi.{Env}
use hrx_system_rs.Ffi.Ensures.{Ensures}
use hrx_system_rs.Hal.{is_null}
use hrx_system_rs.Hip.{HipFunction}
use hrx_system_rs.Hip.Table.{all_functions, index_of}
use hrx_system_rs.Hip.Table.{is_listed, equal_index, all_functions-Complete}
use hrx_system_rs.Hip.Process.{ProcessCall, Symbol, dlsym, Target, library, Slots, Process}
use hrx_system_rs.Hip.Intercept.{load_all, with_slot, target_of, zeroed}
use hrx_system_rs.Hip.Intercept.Client.{History}
use hrx_system_rs.Hip.Intercept.Routing.{Resolved, Real, Logs, quiet-Logs}

-- The library has all of the functions.
pub record FindsAll (e : Env ProcessCall) : Type 0 where
  pub slots :
      (lib : ℕ) (f : HipFunction) (t : List ProcessCall)
      → is_null (e.reply (dlsym lib (Symbol.function f) ∷ t)).ptr ≡ false
  pub others :
      (lib : ℕ) (name : String) (t : List ProcessCall)
      → is_null (e.reply (dlsym lib (Symbol.outside name) ∷ t)).ptr ≡ false

-- Which slots are filled while the functions of a list are still to be looked up.
pub record Part (e : Env ProcessCall) (fs : List HipFunction) (slots : Slots) (t : List ProcessCall)
    : Type 0 where
  pub filled :
      (f : HipFunction) → (is_listed f fs ≡ true) ⊎ ((p : ℕ) × (slots f ≡ some (library p)))
  pub resolved :
      (f : HipFunction) (p : ℕ) → slots f ≡ some (library p) → Resolved e p (Symbol.function f) t

abbrev pointer_in : Option Target → ℕ
pointer_in (some (library p)) = p
pointer_in _ = 0

module _ (e : Env ProcessCall) (found : FindsAll e) (lib : ℕ) where
  abbrev answered : HipFunction → List ProcessCall → ℕ
  answered g t = (e.reply (dlsym lib (Symbol.function g) ∷ t)).ptr

  slot_found :
      (g : HipFunction) (t : List ProcessCall)
      → target_of (answered g t) ≡ some (library (answered g t))
  slot_found g t = rw (found.slots lib g t) refl

  -- One lookup.
  Part-step :
      (g : HipFunction) (gs : List HipFunction) (slots : Slots) (t : List ProcessCall)
      → Part e (g ∷ gs) slots t
      → Part e gs (with_slot g (target_of (answered g t)) slots) (dlsym lib (Symbol.function g) ∷ t)
  Part-step g gs slots t part = record {
    filled = λ f. elim (Bool-cases (index_of f == index_of g)) [
      | inl same ↦ inr (answered g t, rw same (slot_found g t))
      | inr other ↦ elim (part.filled f) [
        | inl later ↦ inl (rw other at later)
        | inr (p, held) ↦ inr (p, rw other held)
      ]
    ];
    resolved = λ f p held. elim (Bool-cases (index_of f == index_of g)) [
      | inl same ↦
          let now : target_of (answered g t) ≡ some (library p) = rw same at held in
          inl (
            ap (λ f. Symbol.function f) (sym (equal_index f g same)),
            ap pointer_in (sym (slot_found g t) ∙ now),
          )
      | inr other ↦ inr (part.resolved f p (rw other at held))
    ];
  }

  pub load_all-Part :
      (fs : List HipFunction) (slots : Slots) (s : Process) (h : History) (t : List ProcessCall)
      → Part e fs slots t
      → Logs e h t
      → Ensures
          (λ slots' s' t'. (s' ≡ s) × Part e [] slots' t' × Logs e h t')
          (load_all lib fs slots e s t)
  unfolding load_all
  load_all-Part [] slots s h t part l = (refl, part, l)
  load_all-Part (g ∷ gs) slots s h t part l =
      load_all-Part gs (with_slot g (target_of (answered g t)) slots) s h
        (dlsym lib (Symbol.function g) ∷ t) (Part-step g gs slots t part)
        (quiet-Logs e (dlsym lib (Symbol.function g)) h t tt l)

pub Part-Real :
    (e : Env ProcessCall) (slots : Slots) (t : List ProcessCall)
    → Part e [] slots t
    → Real e slots t
Part-Real e slots t part = record {
  full = λ f. elim (part.filled f) [ inl never ↦ cc | inr held ↦ held ];
  resolved = part.resolved;
}

pub zeroed-Part : (e : Env ProcessCall) (t : List ProcessCall) → Part e all_functions zeroed t
zeroed-Part e t = record {
  filled = λ f. inl (all_functions-Complete f);
  resolved = λ f p never. cc;
}
