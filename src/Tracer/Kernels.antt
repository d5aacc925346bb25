-- ===== src/Tracer/Kernels.antt =====
-- crates/hip-buffer-tracer/src/lib.rs: the names under which kernels are registered.
use hrx_system_rs.Base.{
  ℕ, ◌≡◌, ◌≢◌, refl, Bool, true, false, Option, none, some, List, [], ◌∷◌, ◌++◌, ◌==◌, arith,
}
use hrx_system_rs.Tracer.{
  KernelInfo, kernel_table_add, kernel_table_get_name, is_registered, name_or_address,
}
use hrx_system_rs.Tracer.Text.{Str}

abbrev pub or_new : Option Str → Bool → Str → Option Str
or_new (some found) same new = some found
or_new none true new = some new
or_new none false new = none

get_name-append :
    (g : ℕ) (ks : List KernelInfo) (k : KernelInfo)
    → kernel_table_get_name g (ks ++ k ∷ [])
      ≡ or_new (kernel_table_get_name g ks) (k.host_func == g) k.name
unfolding kernel_table_get_name
get_name-append g [] k = ground arith
get_name-append g (j ∷ ks) k = ground (arith, get_name-append g ks k)

abbrev IsSomeIf : Bool → Option Str → Type 0
IsSomeIf true none = ⊥
IsSomeIf true (some n) = Unit {0}
IsSomeIf false o = o ≡ none

registered-get_name :
    (f : ℕ) (ks : List KernelInfo) → IsSomeIf (is_registered f ks) (kernel_table_get_name f ks)
unfolding is_registered kernel_table_get_name
registered-get_name f [] = refl
registered-get_name f (k ∷ ks) = ground (arith, registered-get_name f ks)

-- After a registration every kernel that had a name keeps it; the new one, under a handle that is not
-- NULL, has its own name, or one made of the handle when it was given none; no other kernel has one.
pub get_name-add :
    (f g : ℕ) (name : Option Str) (ks : List KernelInfo)
    → f ≢ 0
    → kernel_table_get_name g (kernel_table_add f name ks)
      ≡ or_new (kernel_table_get_name g ks) (f == g) (name_or_address name f)
unfolding kernel_table_add
get_name-add f g name ks h = ground (
  arith,
  registered-get_name f ks,
  get_name-append g ks (record { host_func = f; name = name_or_address name f }),
)
