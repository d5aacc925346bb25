-- ===== src/Tracer/Tables.antt =====
-- crates/hip-buffer-tracer/src/lib.rs: lemmas on the slots that are filled and cleared, and on the kernels
-- that are registered.
use hrx_system_rs.Base.{
  ℕ, suc, ◌+◌, ◌^◌, ◌<◌, ◌≡◌, ◌≢◌, refl, Bool, true, false, Option, none, some, List, [], ◌∷◌, ◌++◌,
  if◌then◌else◌, length, arith,
}
use hrx_system_rs.Tracer.{
  TrackedBuffer, KernelInfo, fill_slot, clear_slot, is_registered, kernel_table_add,
  name_or_address,
}
use hrx_system_rs.Tracer.Text.{Str}

-- A statement about a slot that is used.
abbrev pub When : Bool → Type 0 → Type 0
When true A = A
When false A = Unit {0}

abbrev pub used : List TrackedBuffer → ℕ
used [] = 0
used (b ∷ bs) = if b.in_use then suc (used bs) else used bs

abbrev pub IdsBelow : ℕ → List TrackedBuffer → Type 0
IdsBelow n [] = Unit {0}
IdsBelow n (b ∷ bs) = When b.in_use (b.alloc_id < n) × IdsBelow n bs

abbrev pub IdAbsent : ℕ → List TrackedBuffer → Type 0
IdAbsent i [] = Unit {0}
IdAbsent i (b ∷ bs) = When b.in_use (b.alloc_id ≢ i) × IdAbsent i bs

abbrev pub IdsDistinct : List TrackedBuffer → Type 0
IdsDistinct [] = Unit {0}
IdsDistinct (b ∷ bs) = When b.in_use (IdAbsent b.alloc_id bs) × IdsDistinct bs

-- A used slot holds a pointer that is not NULL and a size that is not 0.
abbrev pub AllLive : List TrackedBuffer → Type 0
AllLive [] = Unit {0}
AllLive (b ∷ bs) = When b.in_use ((b.ptr ≢ 0) × (b.size ≢ 0)) × AllLive bs

-- A used slot holds a size below 2^63, so `Vec` can hold its bytes.
abbrev pub AllFit : List TrackedBuffer → Type 0
AllFit [] = Unit {0}
AllFit (b ∷ bs) = When b.in_use (b.size < 2 ^ 63) × AllFit bs

-- The slots: their ids are below the next one and no two are the same.
pub record IsTable (next : ℕ) (bs : List TrackedBuffer) : Type 0 where
  pub below : IdsBelow next bs
  pub distinct : IdsDistinct bs
  pub live : AllLive bs

below-absent : (n : ℕ) (bs : List TrackedBuffer) → IdsBelow n bs → IdAbsent n bs
below-absent n [] h = tt
below-absent n (b ∷ bs) h = ground (arith, below-absent n bs)

below-next : (n : ℕ) (bs : List TrackedBuffer) → IdsBelow n bs → IdsBelow (n + 1) bs
below-next n [] h = tt
below-next n (b ∷ bs) h = ground (arith, below-next n bs)

module _ (new : TrackedBuffer) (is_used : new.in_use ≡ true) where
  abbrev pub Filled : List TrackedBuffer → Option (List TrackedBuffer) → Type 0
  Filled bs none = used bs ≡ length bs
  Filled bs (some cs) = (used cs ≡ used bs + 1) × (length cs ≡ length bs)

  pub fill_slot-Filled : (bs : List TrackedBuffer) → Filled bs (fill_slot new bs)
  unfolding fill_slot
  fill_slot-Filled [] = refl
  fill_slot-Filled (b ∷ bs) = ground (arith, fill_slot-Filled bs)

  abbrev KeepsAbsent : ℕ → Option (List TrackedBuffer) → Type 0
  KeepsAbsent i none = Unit {0}
  KeepsAbsent i (some cs) = IdAbsent i cs

  fill_slot-KeepsAbsent :
      (i : ℕ) (bs : List TrackedBuffer)
      → new.alloc_id ≢ i
      → IdAbsent i bs
      → KeepsAbsent i (fill_slot new bs)
  unfolding fill_slot
  fill_slot-KeepsAbsent i [] h a = tt
  fill_slot-KeepsAbsent i (b ∷ bs) h a = ground (arith, fill_slot-KeepsAbsent i bs h)

  abbrev pub KeepsTable : Option (List TrackedBuffer) → Type 0
  KeepsTable none = Unit {0}
  KeepsTable (some cs) = IdsBelow (new.alloc_id + 1) cs × IdsDistinct cs × AllLive cs

  pub fill_slot-KeepsTable :
      (bs : List TrackedBuffer)
      → new.ptr ≢ 0
      → new.size ≢ 0
      → IdsBelow new.alloc_id bs
      → IdsDistinct bs
      → AllLive bs
      → KeepsTable (fill_slot new bs)
  unfolding fill_slot
  fill_slot-KeepsTable [] p s w d l = tt
  fill_slot-KeepsTable (b ∷ bs) p s w d l = ground (
    arith,
    fill_slot-KeepsTable bs p s,
    fill_slot-KeepsAbsent b.alloc_id bs,
    below-absent new.alloc_id bs,
    below-next new.alloc_id bs,
  )

  abbrev pub KeepsFit : Option (List TrackedBuffer) → Type 0
  KeepsFit none = Unit {0}
  KeepsFit (some cs) = AllFit cs

  pub fill_slot-KeepsFit :
      (bs : List TrackedBuffer) → new.size < 2 ^ 63 → AllFit bs → KeepsFit (fill_slot new bs)
  unfolding fill_slot
  fill_slot-KeepsFit [] s l = tt
  fill_slot-KeepsFit (b ∷ bs) s l = ground (arith, fill_slot-KeepsFit bs s)

module _ (ptr : ℕ) where
  abbrev pub StillFit : Option (List TrackedBuffer) → Type 0
  StillFit none = Unit {0}
  StillFit (some cs) = AllFit cs

  pub clear_slot-StillFit : (bs : List TrackedBuffer) → AllFit bs → StillFit (clear_slot ptr bs)
  unfolding clear_slot
  clear_slot-StillFit [] l = tt
  clear_slot-StillFit (b ∷ bs) l = ground (arith, clear_slot-StillFit bs)

  abbrev pub Cleared : List TrackedBuffer → Option (List TrackedBuffer) → Type 0
  Cleared bs none = Unit {0}
  Cleared bs (some cs) = (used bs ≡ used cs + 1) × (length cs ≡ length bs)

  pub clear_slot-Cleared : (bs : List TrackedBuffer) → Cleared bs (clear_slot ptr bs)
  unfolding clear_slot
  clear_slot-Cleared [] = tt
  clear_slot-Cleared (b ∷ bs) = ground (arith, clear_slot-Cleared bs)

  abbrev StillAbsent : ℕ → Option (List TrackedBuffer) → Type 0
  StillAbsent i none = Unit {0}
  StillAbsent i (some cs) = IdAbsent i cs

  clear_slot-StillAbsent :
      (i : ℕ) (bs : List TrackedBuffer) → IdAbsent i bs → StillAbsent i (clear_slot ptr bs)
  unfolding clear_slot
  clear_slot-StillAbsent i [] a = tt
  clear_slot-StillAbsent i (b ∷ bs) a = ground (arith, clear_slot-StillAbsent i bs)

  abbrev pub StillTable : ℕ → Option (List TrackedBuffer) → Type 0
  StillTable n none = Unit {0}
  StillTable n (some cs) = IdsBelow n cs × IdsDistinct cs × AllLive cs

  pub clear_slot-StillTable :
      (n : ℕ) (bs : List TrackedBuffer)
      → IdsBelow n bs
      → IdsDistinct bs
      → AllLive bs
      → StillTable n (clear_slot ptr bs)
  unfolding clear_slot
  clear_slot-StillTable n [] w d l = tt
  clear_slot-StillTable n (b ∷ bs) w d l =
      ground (arith, clear_slot-StillTable n bs, clear_slot-StillAbsent b.alloc_id bs)

abbrev pub FuncAbsent : ℕ → List KernelInfo → Type 0
FuncAbsent f [] = Unit {0}
FuncAbsent f (k ∷ ks) = (k.host_func ≢ f) × FuncAbsent f ks

-- Each kernel is registered once, and none under NULL.
abbrev pub Registered : List KernelInfo → Type 0
Registered [] = Unit {0}
Registered (k ∷ ks) = (k.host_func ≢ 0) × FuncAbsent k.host_func ks × Registered ks

absent-append :
    (f : ℕ) (ks : List KernelInfo) (k : KernelInfo)
    → FuncAbsent f ks
    → k.host_func ≢ f
    → FuncAbsent f (ks ++ k ∷ [])
absent-append f [] k a h = (h, tt)
absent-append f (j ∷ ks) k a h = (a.0, absent-append f ks k a.1 h)

append-Registered :
    (ks : List KernelInfo) (k : KernelInfo)
    → Registered ks
    → is_registered k.host_func ks ≡ false
    → k.host_func ≢ 0
    → Registered (ks ++ k ∷ [])
unfolding is_registered
append-Registered [] k r h n = (n, tt, tt)
append-Registered (j ∷ ks) k r h n =
    ground (arith, append-Registered ks k, absent-append j.host_func ks k)

pub kernel_table_add-Registered :
    (f : ℕ) (name : Option Str) (ks : List KernelInfo)
    → Registered ks
    → Registered (kernel_table_add f name ks)
unfolding kernel_table_add
kernel_table_add-Registered f name ks r =
    ground (arith, append-Registered ks (record { host_func = f; name = name_or_address name f }))
