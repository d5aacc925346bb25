-- ===== src/Objects/ValueList/Sequence.antt =====
-- crates/hrx-libhrx/src/value_list.rs: the calls on a list, as calls on a sequence of items.
use hrx_system_rs.Base.{
  ℕ, ◌≡◌, ◌≢◌, refl, sym, ap, ◌⊎◌, inl, inr, Option, none, some, List, [], ◌∷◌, ◌++◌, ◌==◌,
  get_elem?, length, ℤ, true, false, Option-cases, arith,
}
use hrx_system_rs.Ffi.{Env, HrxStatus}
use hrx_system_rs.Status.{hrx_status_from_iree, hrx_make_status, hrx_code_from_iree}
use hrx_system_rs.Objects.{ObjectCall, VmRef, vm_list_push_value, vm_list_push_ref_move}
use hrx_system_rs.Objects.ValueList.{make_i64}
use hrx_system_rs.Objects.ValueList.Bytes.{FitsI64}
use hrx_system_rs.Objects.ValueList.Entries.{
  append_if_ok, entry_of, entries, Item, number, object, entries_of, Stands, AllFit,
}
use hrx_system_rs.Objects.ValueList.Client.{
  ListOp, push_i64, push_null_ref, push_buffer, push_buffer_view, push_fence, size, get_i64, Answer,
  pushed, sized, got,
}

-- The item was appended with success, or nothing was and the status is an error.
abbrev pub Grows : List Item → Item → Answer → List Item → Type 0
Grows xs x a ys =
    ((a ≡ pushed none) × (ys ≡ xs ++ x ∷ []))
    ⊎ ((s : HrxStatus) × (a ≡ pushed s) × (s ≢ none) × (ys ≡ xs))

abbrev pub IsValue : Option Item → HrxStatus × Option ℤ → Type 0
IsValue (some (number v)) r = r ≡ (none, some v)
IsValue (some (object x)) r = (r.0 ≢ none) × (r.1 ≡ none)
IsValue none r = (r.0 ≢ none) × (r.1 ≡ none)

-- What a call does to the sequence and answers, when its out pointer is not NULL.
abbrev pub Follows : List Item → ListOp → Answer → List Item → Type 0
Follows xs (push_i64 v) a ys = Grows xs (number v) a ys
Follows xs push_null_ref a ys = Grows xs (object (record { ptr = 0; type_ = 0 })) a ys
Follows xs (push_buffer b) a ys = (r : VmRef) × Grows xs (object r) a ys
Follows xs (push_buffer_view b) a ys = (r : VmRef) × Grows xs (object r) a ys
Follows xs (push_fence f) a ys = (r : VmRef) × Grows xs (object r) a ys
Follows xs (size p) a ys = (p ≢ 0 → a ≡ sized (none, some (length xs))) × (ys ≡ xs)
Follows xs (get_i64 i p) a ys =
    (p ≢ 0 → (r : HrxStatus × Option ℤ) × (a ≡ got r) × IsValue (get_elem? xs i) r) × (ys ≡ xs)

abbrev pub FollowsAll : List Item → List ListOp → List Answer → List Item → Type 0
FollowsAll xs [] [] ys = ys ≡ xs
FollowsAll xs [] (a ∷ as_) ys = ⊥
FollowsAll xs (c ∷ cs) [] ys = ⊥
FollowsAll xs (c ∷ cs) (a ∷ as_) ys = (zs : List Item) × Follows xs c a zs × FollowsAll zs cs as_ ys

abbrev pub Fits : ListOp → Type 0
Fits (push_i64 v) = FitsI64 v
Fits _ = Unit {0}

abbrev pub AllOpsFit : List ListOp → Type 0
AllOpsFit [] = Unit {0}
AllOpsFit (c ∷ cs) = Fits c × AllOpsFit cs

entries_of-append :
    (xs : List Item) (x : Item) → entries_of (xs ++ x ∷ []) ≡ entries_of xs ++ entries_of (x ∷ [])
entries_of-append [] x = refl
entries_of-append (y ∷ xs) x = ap (λ es. entry_of y ∷ es) (entries_of-append xs x)

AllFit-append : (xs : List Item) (x : Item) → AllFit xs → AllFit (x ∷ []) → AllFit (xs ++ x ∷ [])
AllFit-append [] x h k = k
AllFit-append (number v ∷ xs) x h k = (h.0, AllFit-append xs x h.1 k)
AllFit-append (object r ∷ xs) x h k = AllFit-append xs x h k

same : (n : ℕ) → (n == n) ≡ true
same n = ground arith

module _ (e : Env ObjectCall) (room : (t : List ObjectCall) → e.malloc_fails t ≡ false) where
  -- An error of IREE becomes an error.
  pub from_iree-ne-none : (t : List ObjectCall) (c : ℕ) → hrx_status_from_iree e t (some c) ≢ none
  unfolding hrx_status_from_iree hrx_make_status hrx_code_from_iree
  from_iree-ne-none t c = ground (arith, room t)

  from_iree-none : (t : List ObjectCall) → hrx_status_from_iree e t none ≡ none
  unfolding hrx_status_from_iree
  from_iree-none t = refl

  module _ (vm : ℕ) where
    -- A sequence after a call, with what the call answered.
    abbrev Next : List Item → ListOp → Answer → List ObjectCall → Type 0
    Next xs c a t = (ys : List Item) × Follows xs c a ys × Stands e vm ys t

    grows :
        (xs : List Item) (x : Item) (t : List ObjectCall) (c : ObjectCall)
        → entries e vm (c ∷ t) ≡ append_if_ok (e.reply (c ∷ t)).status (entry_of x) (entries e vm t)
        → Stands e vm xs t
        → AllFit (x ∷ [])
        → (ys : List Item) × Grows xs x
            (pushed (hrx_status_from_iree e (c ∷ t) (e.reply (c ∷ t)).status))
            ys
          × Stands e vm ys (c ∷ t)
    grows xs x t c step_ h fit = elim (Option-cases (e.reply (c ∷ t)).status) [
      | inl ok ↦ (
        xs ++ x ∷ [],
        inl (ground (arith, from_iree-none (c ∷ t)), refl),
        record {
          holds = rw (step_, ok, h.holds) (sym (entries_of-append xs x));
          fit = AllFit-append xs x h.fit fit;
        },
      )
      | inr (code, bad) ↦ (
        xs,
        inr (
          hrx_status_from_iree e (c ∷ t) (e.reply (c ∷ t)).status,
          refl,
          rw bad (from_iree-ne-none (c ∷ t) code),
          refl,
        ),
        record { holds = rw (step_, bad) h.holds; fit = h.fit },
      )
    ]

    pub Grows-value :
        (xs : List Item) (v : ℤ) (t : List ObjectCall)
        → FitsI64 v
        → Stands e vm xs t
        → (ys : List Item) × Grows xs
            (number v)
            (pushed (
              hrx_status_from_iree e
                (vm_list_push_value vm (make_i64 v) ∷ t)
                (e.reply (vm_list_push_value vm (make_i64 v) ∷ t)).status))
            ys
          × Stands e vm ys (vm_list_push_value vm (make_i64 v) ∷ t)
    Grows-value xs v t fit h =
        grows xs (number v) t (vm_list_push_value vm (make_i64 v)) (rw (same vm)) h (fit, tt)

    pub Grows-reference :
        (xs : List Item) (r : VmRef) (t : List ObjectCall)
        → Stands e vm xs t
        → (ys : List Item) × Grows xs
            (object r)
            (pushed (
              hrx_status_from_iree e
                (vm_list_push_ref_move vm r ∷ t)
                (e.reply (vm_list_push_ref_move vm r ∷ t)).status))
            ys
          × Stands e vm ys (vm_list_push_ref_move vm r ∷ t)
    Grows-reference xs r t h =
        grows xs (object r) t (vm_list_push_ref_move vm r) (rw (same vm)) h tt
