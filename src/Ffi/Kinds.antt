-- ===== src/Ffi/Kinds.antt =====
-- What a trace holds of one kind of object: opened, and not yet closed.
use hrx_system_rs.Base.{ℕ, Option, none, some, List, [], ◌∷◌, ◌==◌, if◌then◌else◌}
use hrx_system_rs.Ffi.{Env, Reply, IreeStatus}

-- `opens` gives the object that a call opens when it is answered, `closes` the one that it closes.
pub record Kind (C : Type 0) : Type 0 where
  pub opens : C → Reply → Option ℕ
  pub closes : C → Option ℕ

abbrev pub keep_first : ℕ → Option (List ℕ) → Option (List ℕ)
keep_first q none = none
keep_first q (some qs) = some (q ∷ qs)

-- `none` when the pointer is not in the list.
abbrev pub take_out : ℕ → List ℕ → Option (List ℕ)
take_out p [] = none
take_out p (q ∷ qs) = if p == q then some qs else keep_first q (take_out p qs)

abbrev add : Option ℕ → Option (List ℕ) → Option (List ℕ)
add o none = none
add none (some ps) = some ps
add (some p) (some ps) = some (p ∷ ps)

abbrev remove : Option ℕ → Option (List ℕ) → Option (List ℕ)
remove o none = none
remove none (some ps) = some ps
remove (some p) (some ps) = take_out p ps

-- `none` records that something was closed that was not open.
abbrev pub held : {C : Type 0} → Kind C → Env C → List C → Option (List ℕ)
held k e [] = some []
held k e (c ∷ t) = add (k.opens c (e.reply (c ∷ t))) (remove (k.closes c) (held k e t))

abbrev pub when_ok : IreeStatus → ℕ → Option ℕ
when_ok none p = some p
when_ok (some c) p = none
