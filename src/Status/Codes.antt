-- ===== src/Status/Codes.antt =====
-- crates/hrx-libhrx/src/common.rs: the codes that the status conversions keep.
use hrx_system_rs.Base.{ℕ, Bool, ◌≡◌, some, false, List, [], ◌∷◌, ◌==◌, ◌||◌, if◌then◌else◌, arith}
use hrx_system_rs.Ffi.{Env}
use hrx_system_rs.Status.{
  hrx_make_status, hrx_status_from_iree, hrx_status_to_iree, hrx_code_from_iree, hrx_status_code,
  hrx_status_is_ok,
}

-- The IREE codes that HRX has a code for: invalid argument, deadline exceeded, not found, already exists,
-- resource exhausted, out of range, unimplemented, unavailable.
abbrev shared_codes : List ℕ
shared_codes = 3 ∷ 4 ∷ 5 ∷ 6 ∷ 8 ∷ 11 ∷ 12 ∷ 14 ∷ []

abbrev is_in : ℕ → List ℕ → Bool
is_in c [] = false
is_in c (x ∷ xs) = (c == x) || is_in c xs

-- 13 is `IREE_STATUS_INTERNAL`.
abbrev pub kept : ℕ → ℕ
kept c = if is_in c shared_codes then c else 13

pub from_iree-to_iree-from_iree :
    {C : Type 0} (e : Env C) (t : List C) (c : ℕ)
    → e.malloc_fails t ≡ false
    → (hrx_status_to_iree (hrx_status_from_iree e t (some c)) ≡ some (kept c))
      × (hrx_status_code
            (hrx_status_from_iree e t (hrx_status_to_iree (hrx_status_from_iree e t (some c))))
          ≡ hrx_status_code (hrx_status_from_iree e t (some c)))
unfolding hrx_status_from_iree hrx_status_to_iree hrx_code_from_iree hrx_status_code
from_iree-to_iree-from_iree e t c h = (ground arith, ground arith)

-- A failed IREE call is reported as NULL, the status of success, exactly when the payload of the
-- error cannot be allocated.
pub is_ok-from_iree :
    {C : Type 0} (e : Env C) (t : List C) (c : ℕ)
    → hrx_status_is_ok (hrx_status_from_iree e t (some c)) ≡ e.malloc_fails t
unfolding hrx_status_from_iree hrx_code_from_iree hrx_make_status
is_ok-from_iree e t c = ground arith
