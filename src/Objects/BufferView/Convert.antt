-- ===== src/Objects/BufferView/Convert.antt =====
-- crates/hrx-libhrx/src/buffer_view.rs: the two loops that convert a shape, against a reference.
use hrx_system_rs.Base.{
  ℕ, zero, suc, Bool-cases, inl, inr, ◌+◌, ◌≤◌, ◌<◌, ap, ◌≡◌, refl, sym, ◌∙◌, ltb, true, Option,
  none, some, List, [], ◌∷◌, ◌++◌, get_elem?, set, replicate, length, ℤ, pos, negsuc, arith, false,
}
use mathlib.Core.List.{append-nil, append_assoc}
use hrx_system_rs.Objects.BufferView.{
  Converted, converted, negative, outside, heap_loop, stack_loop, to_iree_shape,
}

abbrev add_dim : ℤ → Option (List ℕ) → Option (List ℕ)
add_dim (pos d) (some ds) = some (d ∷ ds)
add_dim (pos d) none = none
add_dim (negsuc d) ds = none

-- The shape that the dimensions ask for, if none of them is negative.
abbrev pub unsigned : List ℤ → Option (List ℕ)
unsigned [] = some []
unsigned (d ∷ ds) = add_dim d (unsigned ds)

abbrev pub take : {A : Type 0} → ℕ → List A → List A
take zero xs = []
take (suc n) [] = []
take (suc n) (x ∷ xs) = x ∷ take n xs

abbrev drop : {A : Type 0} → ℕ → List A → List A
drop zero xs = xs
drop (suc n) [] = []
drop (suc n) (x ∷ xs) = drop n xs

suc-add : (i n : ℕ) → suc i + n ≡ suc (i + n)
suc-add i n = omega arith

drop-cons :
    (i : ℕ) (d : ℤ) (dims rest : List ℤ)
    → drop i dims ≡ d ∷ rest
    → (get_elem? dims i ≡ some d) × (drop (i + 1) dims ≡ rest)
drop-cons zero d [] rest e = ground arith
drop-cons zero d (x ∷ dims) rest e = ground arith
drop-cons (suc i) d [] rest e = ground arith
drop-cons (suc i) d (x ∷ dims) rest e = rw suc-add (drop-cons i d dims rest e)

length-set : (i d : ℕ) (xs : List ℕ) → length (set xs i d) ≡ length xs
length-set i d [] = refl
length-set zero d (x ∷ xs) = refl
length-set (suc i) d (x ∷ xs) = ap suc (length-set i d xs)

take-set : (i d : ℕ) (xs : List ℕ) → i < length xs → take (i + 1) (set xs i d) ≡ take i xs ++ d ∷ []
take-set i d [] h = absurd (omega arith)
take-set zero d (x ∷ xs) h = refl
take-set (suc i) d (x ∷ xs) h = rw suc-add (ap (λ ys. x ∷ ys) (take-set i d xs (omega arith)))

-- The result of a loop whose array begins with `before`: it goes on with the shape, up to `rank`.
abbrev pub Fills : ℕ → List ℕ → Option (List ℕ) → Converted → Type 0
Fills rank before none c = c ≡ negative
Fills rank before (some ds) (converted shape) = take rank shape ≡ before ++ ds
Fills rank before (some ds) negative = ⊥
Fills rank before (some ds) outside = ⊥

add-suc : (i n : ℕ) → i + suc n ≡ i + 1 + n
add-suc i n = omega arith

heap_result : List ℕ → Option (List ℕ) → Converted
heap_result filled none = negative
heap_result filled (some ds) = converted (filled ++ ds)

add-zero : (i : ℕ) → i + 0 ≡ i
add-zero i = omega arith

heap_result-add :
    (filled : List ℕ) (d : ℕ) (o : Option (List ℕ))
    → heap_result (filled ++ d ∷ []) o ≡ heap_result filled (add_dim (pos d) o)
unfolding heap_result
heap_result-add filled d none = refl
heap_result-add filled d (some ds) = ap converted (append_assoc filled (d ∷ []) ds)

heap_loop_lem :
    (rest : List ℤ) (i : ℕ) (dims : List ℤ) (filled : List ℕ)
    → drop i dims ≡ rest
    → heap_loop (length rest) i dims filled ≡ heap_result filled (unsigned rest)
unfolding heap_loop heap_result
heap_loop_lem [] i dims filled e = ground (arith, append-nil filled)
heap_loop_lem (pos d ∷ rest) i dims filled e =
    rw ((drop-cons i (pos d) dims rest e).0, heap_loop)
      (heap_loop_lem rest (i + 1) dims (filled ++ d ∷ []) (drop-cons i (pos d) dims rest e).1
        ∙ heap_result-add filled d (unsigned rest))
heap_loop_lem (negsuc d ∷ rest) i dims filled e =
    rw ((drop-cons i (negsuc d) dims rest e).0, heap_loop)

Fills-add :
    (rank d : ℕ) (before : List ℕ) (o : Option (List ℕ)) (c : Converted)
    → Fills rank (before ++ d ∷ []) o c
    → Fills rank before (add_dim (pos d) o) c
Fills-add rank d before none c h = h
Fills-add rank d before (some ds) (converted shape) h = h ∙ append_assoc before (d ∷ []) ds
Fills-add rank d before (some ds) negative h = h
Fills-add rank d before (some ds) outside h = h

ltb-true : (a b : ℕ) → a < b → ltb a b ≡ true
ltb-true a b h = ground arith

stack_loop-Fills :
    (rest : List ℤ) (i : ℕ) (dims : List ℤ) (filled : List ℕ)
    → drop i dims ≡ rest
    → i + length rest ≤ length filled
    → Fills
        (i + length rest)
        (take i filled)
        (unsigned rest)
        (stack_loop (length rest) i dims filled)
unfolding stack_loop
stack_loop-Fills [] i dims filled e h = rw (add-zero i) (sym (append-nil (take i filled)))
stack_loop-Fills (pos d ∷ rest) i dims filled e h =
    let inside : i < length filled = omega arith in
    let room : i + 1 + length rest ≤ length (set filled i d) =
      omega (arith, length-set i d filled) in
    let later =
      stack_loop-Fills rest (i + 1) dims (set filled i d) (drop-cons i (pos d) dims rest e).1
        room in
    rw ((drop-cons i (pos d) dims rest e).0, ltb-true i (length filled) inside, stack_loop)
      (Fills-add (i + suc (length rest)) d (take i filled) (unsigned rest)
        (stack_loop (length rest) (i + 1) dims (set filled i d))
        (rw (← take-set i d filled inside, add-suc i (length rest)) later))
stack_loop-Fills (negsuc d ∷ rest) i dims filled e h =
    rw ((drop-cons i (negsuc d) dims rest e).0, stack_loop)

-- A list that fits exactly gives the whole of itself.
take_all : (xs : List ℕ) → take (length xs) xs ≡ xs
take_all [] = refl
take_all (x ∷ xs) = ap (λ ys. x ∷ ys) (take_all xs)

add_dim-eq-some :
    (d : ℕ) (o : Option (List ℕ)) (xs : List ℕ)
    → add_dim (pos d) o ≡ some xs
    → (ys : List ℕ) × (o ≡ some ys) × (xs ≡ d ∷ ys)
add_dim-eq-some d none xs e = cc
add_dim-eq-some d (some ys) xs e = (ys, refl, cc)

length-unsigned : (ds : List ℤ) (xs : List ℕ) → unsigned ds ≡ some xs → length xs ≡ length ds
length-unsigned [] xs e = ground arith
length-unsigned (pos d ∷ ds) xs e =
    let (ys, tail, cons_) = add_dim-eq-some d (unsigned ds) xs e in
    rw cons_ (ap suc (length-unsigned ds ys tail))
length-unsigned (negsuc d ∷ ds) xs e = cc

heap_result-Fills :
    (o : Option (List ℕ)) (n : ℕ)
    → ((xs : List ℕ) → o ≡ some xs → length xs ≡ n)
    → Fills n [] o (heap_result [] o)
unfolding heap_result
heap_result-Fills none n h = refl
heap_result-Fills (some xs) n h = rw (← h xs refl) (take_all xs)

zero-add : (n : ℕ) → 0 + n ≡ n
zero-add n = omega arith

short-le : (n : ℕ) → ltb 8 n ≡ false → 0 + n ≤ 8
short-le n h = ground arith

-- The conversion of as many dimensions as the rank says fills the array with them, whichever array it
-- uses, or finds a negative one; it never leaves the array.
pub to_iree_shape-Fills :
    (dims : List ℤ) → Fills (length dims) [] (unsigned dims) (to_iree_shape (length dims) dims)
unfolding to_iree_shape
to_iree_shape-Fills dims = elim (Bool-cases (ltb 8 (length dims))) [
  | inl long ↦
      rw (long, heap_loop_lem dims 0 dims [] refl)
        (heap_result-Fills (unsigned dims) (length dims) (length-unsigned dims))
  | inr short ↦ rw short (
      rw (zero-add (length dims)) at
        (stack_loop-Fills dims 0 dims (replicate 8 0) refl (short-le (length dims) short)))
]
