-- ===== src/Objects/ValueList/Entries.antt =====
-- crates/hrx-libhrx/src/value_list.rs: the entries of an IREE list, and the sequence of items they stand
-- for.
use hrx_system_rs.Base.{
  ℕ, zero, suc, ◌≡◌, ◌≢◌, refl, ap, Option, none, some, List, [], ◌∷◌, ◌++◌, ◌==◌, if◌then◌else◌,
  get_elem?, length, ℤ, arith,
}
use hrx_system_rs.Ffi.{Env, IreeStatus}
use hrx_system_rs.Objects.{
  ObjectCall, VmValue, VmRef, vm_list_size, vm_list_push_value, vm_list_push_ref_move,
  vm_list_get_value_as,
}
use hrx_system_rs.Objects.ValueList.{value_type_i64, make_i64}
use hrx_system_rs.Objects.ValueList.Bytes.{FitsI64}

pub data Entry : Type 0 where
  value : VmValue → Entry
  reference : VmRef → Entry

abbrev pub append_if_ok : IreeStatus → Entry → List Entry → List Entry
append_if_ok none x xs = xs ++ x ∷ []
append_if_ok (some c) x xs = xs

abbrev append_here : ℕ → ℕ → IreeStatus → Entry → List Entry → List Entry
append_here vm l status x xs = if l == vm then append_if_ok status x xs else xs

abbrev pub entry_step : ℕ → ObjectCall → IreeStatus → List Entry → List Entry
entry_step vm (vm_list_push_value l v) status xs = append_here vm l status (value v) xs
entry_step vm (vm_list_push_ref_move l r) status xs = append_here vm l status (reference r) xs
entry_step vm _ status xs = xs

-- What the accepted pushes of a trace left in the IREE list.
abbrev pub entries : Env ObjectCall → ℕ → List ObjectCall → List Entry
entries e vm [] = []
entries e vm (c ∷ t) = entry_step vm c (e.reply (c ∷ t)).status (entries e vm t)

-- IREE's documentation of a list: its size, and the value at an index, which is refused for an index
-- outside the list and for an entry of another type.
abbrev pub Reads : Option Entry → IreeStatus → VmValue → Type 0
Reads none status v = status ≢ none
Reads (some (value x)) status v = (x.type_ ≡ value_type_i64) → (status ≡ none) × (v ≡ x)
Reads (some (reference r)) status v = status ≢ none

pub record ListLaws (e : Env ObjectCall) (written : List ObjectCall → VmValue) (vm : ℕ)
    : Type 0 where
  pub sizes : (t : List ObjectCall) → (e.reply (vm_list_size vm ∷ t)).num ≡ length (entries e vm t)
  pub reads :
      (t : List ObjectCall) (i : ℕ)
      → Reads
          (get_elem? (entries e vm t) i)
          (e.reply (vm_list_get_value_as vm i value_type_i64 ∷ t)).status
          (written (vm_list_get_value_as vm i value_type_i64 ∷ t))

-- The sequence that the list stands for: a number, or a reference.
pub data Item : Type 0 where
  number : ℤ → Item
  object : VmRef → Item

abbrev pub entry_of : Item → Entry
entry_of (number v) = value (make_i64 v)
entry_of (object r) = reference r

abbrev pub entries_of : List Item → List Entry
entries_of [] = []
entries_of (x ∷ xs) = entry_of x ∷ entries_of xs

abbrev pub AllFit : List Item → Type 0
AllFit [] = Unit {0}
AllFit (number v ∷ xs) = FitsI64 v × AllFit xs
AllFit (object r ∷ xs) = AllFit xs

-- The trace's list holds these items, whose numbers are numbers of 64 bits.
pub record Stands (e : Env ObjectCall) (vm : ℕ) (xs : List Item) (t : List ObjectCall)
    : Type 0 where
  pub holds : entries e vm t ≡ entries_of xs
  pub fit : AllFit xs

pub length-entries_of : (xs : List Item) → length (entries_of xs) ≡ length xs
length-entries_of [] = refl
length-entries_of (x ∷ xs) = ap suc (length-entries_of xs)

number-inj : (w v : ℤ) → number w ≡ number v → w ≡ v
number-inj w v e = cc

pub get_elem?-entries_of :
    (xs : List Item) (i : ℕ) (x : Item)
    → get_elem? xs i ≡ some x
    → get_elem? (entries_of xs) i ≡ some (entry_of x)
get_elem?-entries_of [] i x f = ground arith
get_elem?-entries_of (y ∷ xs) zero x f = ground arith
get_elem?-entries_of (y ∷ xs) (suc i) x f = get_elem?-entries_of xs i x f

pub get_elem?-entries_of-none :
    (xs : List Item) (i : ℕ) → get_elem? xs i ≡ none → get_elem? (entries_of xs) i ≡ none
get_elem?-entries_of-none [] i f = refl
get_elem?-entries_of-none (y ∷ xs) zero f = ground arith
get_elem?-entries_of-none (y ∷ xs) (suc i) f = get_elem?-entries_of-none xs i f

pub AllFit-get :
    (xs : List Item) (i : ℕ) (v : ℤ) → AllFit xs → get_elem? xs i ≡ some (number v) → FitsI64 v
AllFit-get [] i v h f = ground arith
AllFit-get (number w ∷ xs) zero v h f = rw (← number-inj w v (cc)) h.0
AllFit-get (object r ∷ xs) zero v h f = ground arith
AllFit-get (number w ∷ xs) (suc i) v h f = AllFit-get xs i v h.1 f
AllFit-get (object r ∷ xs) (suc i) v h f = AllFit-get xs i v h f
