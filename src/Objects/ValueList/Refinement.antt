-- ===== src/Objects/ValueList/Refinement.antt =====
-- crates/hrx-libhrx/src/value_list.rs: the calls on a list against the sequence of its items.
use hrx_system_rs.Base.{
  ℕ, ◌≡◌, ◌≢◌, refl, inl, inr, ◌||◌, true, false, if◌then◌else◌, Bool-cases, Option, none, some,
  List, [], ◌∷◌, get_elem?, ℤ, String, arith,
}
use hrx_system_rs.Ffi.{Env, IreeStatus, Run, done, fault}
use hrx_system_rs.Ffi.Ensures.{Ensures, bind, mono}
use hrx_system_rs.Hal.{is_null}
use hrx_system_rs.Status.{HrxStatusCode, fail, hrx_make_status}
use hrx_system_rs.Objects.{
  ObjectCall, VmRef, vm_list_get_value_as, buffer_retain_ref, buffer_view_retain_ref,
  fence_retain_ref,
}
use hrx_system_rs.Objects.ValueList.{
  value_type_i64, push_retained, read_i64, hrx_value_list_size, hrx_value_list_push_i64,
  hrx_value_list_push_null_ref, hrx_value_list_push_buffer, hrx_value_list_push_buffer_view,
  hrx_value_list_push_fence, hrx_value_list_get_i64,
}
use hrx_system_rs.Objects.ValueList.Bytes.{FitsI64, from_ne_bytes-to_ne_bytes}
use hrx_system_rs.Objects.ValueList.Entries.{
  Entry, entries, ListLaws, Reads, Item, number, object, entry_of, Stands, length-entries_of,
  get_elem?-entries_of, get_elem?-entries_of-none, AllFit-get,
}
use hrx_system_rs.Objects.ValueList.Client.{
  ListOp, push_i64, push_null_ref, push_buffer, push_buffer_view, push_fence, size, get_i64, Answer,
  pushed, got, Handles, step, run,
}
use hrx_system_rs.Objects.ValueList.Sequence.{
  Grows, IsValue, Follows, FollowsAll, Fits, AllOpsFit, Grows-value, Grows-reference,
  from_iree-ne-none,
}

abbrev entry_of? : Option Item → Option Entry
entry_of? none = none
entry_of? (some x) = some (entry_of x)

null_false : (p : ℕ) → p ≢ 0 → is_null p ≡ false
null_false p h = ground arith

null_true : (p : ℕ) → is_null p ≡ true → p ≡ 0
null_true p h = ground arith

module _ (e : Env ObjectCall) (room : (t : List ObjectCall) → e.malloc_fails t ≡ false)
    (hs : Handles) (list : ℕ) (here : list ≢ 0) where
  abbrev vm : ℕ
  vm = hs.value_list_vm list

  abbrev asked : ℕ → ObjectCall
  asked i = vm_list_get_value_as vm i value_type_i64

  abbrev Next : List Item → ListOp → Answer → List ObjectCall → Type 0
  Next xs c a t = (ys : List Item) × Follows xs c a ys × Stands e vm ys t

  refused : (t : List ObjectCall) (message : Option String) → hrx_make_status e t 3 message ≢ none
  unfolding hrx_make_status
  refused t message = ground (arith, room t)

  push_retained-Next :
      {S : Type 0} (s : S) (xs : List Item) (t : List ObjectCall) (c : ObjectCall)
      → Stands e vm xs (c ∷ t)
      → Ensures
          (λ r _ t'.
            (ys : List Item) × ((x : VmRef) × Grows xs (object x) (pushed r) ys)
            × Stands e vm ys t')
          (push_retained hs.value_list_vm list c e s t)
  push_retained-Next s xs t c h =
      let (ys, g, st) = Grows-reference e room vm xs _ (c ∷ t) h in (ys, (_, g), st)

  -- A push of an object behind a handle, which may be NULL.
  push_object-Next :
      {S : Type 0} (s : S) (xs : List Item) (t : List ObjectCall) (c : ObjectCall) (p : ℕ)
      (message : String)
      → Stands e vm xs t
      → Stands e vm xs (c ∷ t)
      → Ensures
          (λ r _ t'.
            (ys : List Item) × ((x : VmRef) × Grows xs (object x) (pushed r) ys)
            × Stands e vm ys t')
          ((if is_null list || is_null p
              then fail HrxStatusCode.invalid_argument message
              else push_retained hs.value_list_vm list c)
            e s t)
  push_object-Next s xs t c p message h h' = elim (Bool-cases (is_null p)) [
    | inl null ↦
        rw (null_false list here, null)
          (xs, (record { ptr = 0; type_ = 0 }, inr (_, refl, refused t _, refl)), h)
    | inr ok ↦ rw (null_false list here, ok) (push_retained-Next s xs t c h')
  ]

  read_i64_failed :
      {S : Type 0} (s : S) (t : List ObjectCall) (status : IreeStatus)
      → status ≢ none
      → Ensures
          (λ r _ t'. ((r.0 ≢ none) × (r.1 ≡ none)) × (t' ≡ t))
          (read_i64 hs.value_list_vm hs.written status e s t)
  read_i64_failed s t none h = absurd (h refl)
  read_i64_failed s t (some c) h = ((from_iree-ne-none e room t c, refl), refl)

  read_i64_lem :
      {S : Type 0} (s : S) (t : List ObjectCall) (status : IreeStatus) (o : Option Item)
      → Reads (entry_of? o) status (hs.written t)
      → ((v : ℤ) → o ≡ some (number v) → FitsI64 v)
      → Ensures
          (λ r _ t'. IsValue o r × (t' ≡ t))
          (read_i64 hs.value_list_vm hs.written status e s t)
  read_i64_lem s t status none h fit = read_i64_failed s t status h
  read_i64_lem s t status (some (number v)) h fit =
      rw ((h refl).0, read_i64, (h refl).1)
        (rw (from_ne_bytes-to_ne_bytes v (fit v refl)) (refl, refl))
  read_i64_lem s t status (some (object r)) h fit = read_i64_failed s t status h

  Reads-entry :
      (laws : ListLaws e hs.written vm) (xs : List Item) (t : List ObjectCall) (i : ℕ)
      → Stands e vm xs t
      → (o : Option Item) → get_elem? xs i ≡ o
      → Reads
          (entry_of? o)
          (e.reply (vm_list_get_value_as vm i value_type_i64 ∷ t)).status
          (hs.written (vm_list_get_value_as vm i value_type_i64 ∷ t))
  Reads-entry laws xs t i h none f =
      rw (h.holds, get_elem?-entries_of-none xs i f) at (laws.reads t i)
  Reads-entry laws xs t i h (some x) f =
      rw (h.holds, get_elem?-entries_of xs i x f) at (laws.reads t i)

  then_answer :
      {A S : Type 0} (P : Answer → List ObjectCall → Type 0) (f : A → Answer)
      (r : Run ObjectCall S A)
      → Ensures (λ x _ t. P (f x) t) r
      → Ensures (λ a _ t. P a t) (elim r [ done x s t ↦ done (f x) s t | fault ↦ fault ])
  then_answer P f (done x s t) h = h
  then_answer P f fault h = h

  module _ (laws : ListLaws e hs.written vm) {S : Type 0} where
    size-Next :
        (xs : List Item) (s : S) (t : List ObjectCall) (p : ℕ)
        → Stands e vm xs t
        → Ensures (λ a _ t'. Next xs (size p) a t') (step hs list (size p) e s t)
    unfolding step hrx_value_list_size
    size-Next xs s t p h = elim (Bool-cases (is_null p)) [
      | inl null ↦
          rw (null_false list here, null) (xs, (λ k. absurd (k (null_true p null)), refl), h)
      | inr ok ↦
          rw (null_false list here, ok)
            (
              xs,
              (λ k. rw (laws.sizes t, h.holds, length-entries_of xs), refl),
              record { holds = h.holds; fit = h.fit },
            )
    ]

    get-Next :
        (xs : List Item) (s : S) (t : List ObjectCall) (i p : ℕ)
        → Stands e vm xs t
        → Ensures (λ a _ t'. Next xs (get_i64 i p) a t') (step hs list (get_i64 i p) e s t)
    unfolding step hrx_value_list_get_i64
    get-Next xs s t i p h = elim (Bool-cases (is_null p)) [
      | inl null ↦
          rw (null_false list here, null) (xs, (λ k. absurd (k (null_true p null)), refl), h)
      | inr ok ↦
          rw (null_false list here, ok)
            (then_answer (λ a t'. Next xs (get_i64 i p) a t') got _
              (mono (λ r _ t'. IsValue (get_elem? xs i) r × (t' ≡ asked i ∷ t))
                (λ r _ t'. Next xs (get_i64 i p) (got r) t')
                (read_i64 hs.value_list_vm hs.written (e.reply (asked i ∷ t)).status e s
                  (asked i ∷ t))
                (read_i64_lem s (asked i ∷ t) (e.reply (asked i ∷ t)).status (get_elem? xs i)
                  (Reads-entry laws xs t i h (get_elem? xs i) refl)
                  (λ v f. AllFit-get xs i v h.fit f))
                λ r s' t' found. (
                  xs,
                  (λ k. (r, refl, found.0), refl),
                  rw found.1 (record { holds = h.holds; fit = h.fit }),
                )))
    ]

    step-Next :
        (c : ListOp) (xs : List Item) (s : S) (t : List ObjectCall)
        → Fits c
        → Stands e vm xs t
        → Ensures (λ a _ t'. Next xs c a t') (step hs list c e s t)
    unfolding step hrx_value_list_push_i64 hrx_value_list_push_null_ref hrx_value_list_push_buffer
        hrx_value_list_push_buffer_view hrx_value_list_push_fence
    step-Next (push_i64 v) xs s t fit h =
        rw (null_false list here) (Grows-value e room vm xs v t fit h)
    step-Next push_null_ref xs s t fit h =
        rw (null_false list here) (Grows-reference e room vm xs (record { ptr = 0; type_ = 0 }) t h)
    step-Next (push_buffer b) xs s t fit h =
        then_answer (λ a t'. Next xs (push_buffer b) a t') pushed _
          (push_object-Next s xs t (buffer_retain_ref (hs.buffer_hal b)) b "list or buffer is NULL"
            h (record { holds = h.holds; fit = h.fit }))
    step-Next (push_buffer_view b) xs s t fit h =
        then_answer (λ a t'. Next xs (push_buffer_view b) a t') pushed _
          (push_object-Next s xs t (buffer_view_retain_ref (hs.buffer_view_hal b)) b
            "list or buffer_view is NULL" h (record { holds = h.holds; fit = h.fit }))
    step-Next (push_fence f) xs s t fit h =
        then_answer (λ a t'. Next xs (push_fence f) a t') pushed _
          (push_object-Next s xs t (fence_retain_ref (hs.fence_hal f)) f "list or fence is NULL" h
            (record { holds = h.holds; fit = h.fit }))
    step-Next (size p) xs s t fit h = size-Next xs s t p h
    step-Next (get_i64 i p) xs s t fit h = get-Next xs s t i p h

    run-FollowsAll :
        (cs : List ListOp) (xs : List Item) (s : S) (t : List ObjectCall)
        → AllOpsFit cs
        → Stands e vm xs t
        → Ensures
            (λ as_ _ t'. (ys : List Item) × FollowsAll xs cs as_ ys × Stands e vm ys t')
            (run hs list cs e s t)
    unfolding run
    run-FollowsAll [] xs s t fit h = (xs, refl, h)
    run-FollowsAll (c ∷ cs) xs s t fit h =
        bind (λ a _ t'. Next xs c a t')
          (λ as_ _ t'. (ys : List Item) × FollowsAll xs (c ∷ cs) as_ ys × Stands e vm ys t')
          (step hs list c e s t) _ (step-Next c xs s t fit.0 h)
          λ a s' t' next.
            bind (λ as_ _ t''. (ys : List Item) × FollowsAll next.0 cs as_ ys × Stands e vm ys t'')
              (λ as_ _ t''. (ys : List Item) × FollowsAll xs (c ∷ cs) as_ ys × Stands e vm ys t'')
              (run hs list cs e s' t') _ (run-FollowsAll cs next.0 s' t' fit.1 next.2)
              λ as_ s'' t'' r. (r.0, (next.0, next.1, r.1), r.2)

-- Any sequence of pushes and reads on an empty list answers as the sequence of what was pushed does: an
-- accepted push appends its item and a refused one reports an error, the size is the length, and at an
-- index there is the number that was pushed, all its 64 bits, or an error when there is no number. The
-- list's handle is not NULL, IREE's list keeps to its documentation, and payload allocations do not
-- fail.
pub run-empty-FollowsAll :
    (e : Env ObjectCall) (hs : Handles) (list : ℕ) {S : Type 0} (s : S) (t : List ObjectCall)
    (cs : List ListOp)
    → ((t : List ObjectCall) → e.malloc_fails t ≡ false)
    → list ≢ 0
    → ListLaws e hs.written (hs.value_list_vm list)
    → entries e (hs.value_list_vm list) t ≡ []
    → AllOpsFit cs
    → Ensures (λ as_ _ _. (ys : List Item) × FollowsAll [] cs as_ ys) (run hs list cs e s t)
run-empty-FollowsAll e hs list s t cs room here laws empty fit =
    mono
      (λ as_ _ t'.
        (ys : List Item) × FollowsAll [] cs as_ ys × Stands e (hs.value_list_vm list) ys t')
      (λ as_ _ _. (ys : List Item) × FollowsAll [] cs as_ ys) (run hs list cs e s t)
      (run-FollowsAll e room hs list here laws cs [] s t fit (record { holds = empty; fit = tt }))
      λ as_ s' t' r. (r.0, r.1)
