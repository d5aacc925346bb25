-- ===== src/Examples/ValueListExamples.antt =====
-- crates/hrx-libhrx/src/value_list.rs on a list that keeps to its documentation and accepts every push.
use hrx_system_rs.Base.{
  ℕ, ◌+◌, ◌≡◌, refl, sym, ap, Option, none, some, List, [], ◌∷◌, length, get_elem?, false, arith,
  pos, negsuc,
}
use mathlib.Core.Path.{subst}
use hrx_system_rs.Ffi.{Env, Reply, IreeStatus}
use hrx_system_rs.Ffi.Ensures.{Ensures}
use hrx_system_rs.Objects.{
  ObjectCall, VmValue, vm_list_size, vm_list_push_value, vm_list_push_ref_move,
  vm_list_get_value_as,
}
use hrx_system_rs.Objects.ValueList.Entries.{
  Entry, value, reference, entry_step, entries, Reads, ListLaws, Item,
}
use hrx_system_rs.Objects.ValueList.Client.{
  ListOp, push_i64, push_buffer, size, get_i64, Handles, run,
}
use hrx_system_rs.Objects.ValueList.Sequence.{FollowsAll}
use hrx_system_rs.Objects.ValueList.Refinement.{run-empty-FollowsAll}

-- The entries when every push is accepted.
abbrev stored : ℕ → List ObjectCall → List Entry
stored vm [] = []
stored vm (c ∷ t) = entry_step vm c none (stored vm t)

abbrev read_status : Option Entry → IreeStatus
read_status none = some 11
read_status (some (value x)) = none
read_status (some (reference r)) = some 3

abbrev value_in : Option Entry → VmValue
value_in (some (value x)) = x
value_in _ = record { type_ = 0; storage = [] }

abbrev list_reply : ObjectCall → List ObjectCall → Reply
list_reply (vm_list_size vm) t = record { status = none; ptr = 0; num = length (stored vm t) }
list_reply (vm_list_get_value_as vm i type_) t = record {
  status = read_status (get_elem? (stored vm t) i);
  ptr = 0;
  num = 0;
}
list_reply _ t = record { status = none; ptr = length t; num = 0 }

abbrev reply_of : List ObjectCall → Reply
reply_of [] = record { status = none; ptr = 0; num = 0 }
reply_of (c ∷ t) = list_reply c t

abbrev list_env : Env ObjectCall
list_env = record {
  reply = reply_of;
  malloc_fails = λ t. false;
  dup = λ t s. some s;
  describe = λ t c. none;
}

abbrev written_by : ObjectCall → List ObjectCall → VmValue
written_by (vm_list_get_value_as vm i type_) t = value_in (get_elem? (stored vm t) i)
written_by _ t = value_in none

abbrev written_of : List ObjectCall → VmValue
written_of [] = value_in none
written_of (c ∷ t) = written_by c t

abbrev handles : Handles
handles = record {
  value_list_vm = λ l. l + 100;
  buffer_hal = λ b. b + 200;
  buffer_view_hal = λ b. b + 300;
  fence_hal = λ f. f + 400;
  written = written_of;
}

entries-stored : (vm : ℕ) (t : List ObjectCall) → entries list_env vm t ≡ stored vm t
entries-stored vm [] = refl
entries-stored vm (vm_list_push_value l v ∷ t) =
    ap (entry_step vm (vm_list_push_value l v) none) (entries-stored vm t)
entries-stored vm (vm_list_push_ref_move l r ∷ t) =
    ap (entry_step vm (vm_list_push_ref_move l r) none) (entries-stored vm t)
entries-stored vm (c ∷ t) = entries-stored vm t

read-Reads : (o : Option Entry) → Reads o (read_status o) (value_in o)
read-Reads none = cc
read-Reads (some (value x)) = λ same. (refl, refl)
read-Reads (some (reference r)) = cc

list_env-ListLaws : (vm : ℕ) → ListLaws list_env written_of vm
list_env-ListLaws vm = record {
  sizes = λ t. ap length (sym (entries-stored vm t));
  reads = λ t i.
      subst
        (λ es.
          Reads (get_elem? es i) (read_status (get_elem? (stored vm t) i))
            (value_in (get_elem? (stored vm t) i)))
        (sym (entries-stored vm t)) (read-Reads (get_elem? (stored vm t) i));
}

-- Two numbers, of which one is negative, an object, and reads of each and past the end.
abbrev list_calls : List ListOp
list_calls =
    push_i64 (pos 7)
    ∷ push_i64 (negsuc 2)
    ∷ push_buffer 5
    ∷ size 1
    ∷ get_i64 1 1
    ∷ get_i64 2 1
    ∷ get_i64 9 1
    ∷ []

run-empty-FollowsAll_example :
    Ensures
      (λ as_ _ _. (ys : List Item) × FollowsAll [] list_calls as_ ys)
      (run handles 1 list_calls list_env (tt {0}) [])
run-empty-FollowsAll_example =
    run-empty-FollowsAll list_env handles 1 (tt {0}) [] list_calls (λ t. refl) (ground arith)
      (list_env-ListLaws 101) refl (ground arith)
