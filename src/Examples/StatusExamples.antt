-- ===== src/Examples/StatusExamples.antt =====
-- crates/hrx-libhrx/src/common.rs on concrete codes.
use hrx_system_rs.Base.{ℕ, [], refl, ◌≡◌, false}
use hrx_system_rs.Ffi.Samples.{ok_env}
use hrx_system_rs.Status.{
  hrx_status_code, hrx_status_from_iree, hrx_status_to_iree, hrx_status_is_ok,
}
use hrx_system_rs.Status.Codes.{from_iree-to_iree-from_iree, is_ok-from_iree}
use hrx_system_rs.Base.{some, List, ◌∷◌}
use hrx_system_rs.Ffi.{◌>>=◌}
use hrx_system_rs.Ffi.Ensures.{Ensures}
use hrx_system_rs.Ffi.Samples.{fails_at}
use hrx_system_rs.Status.Payload.{
  PayloadCall, iree_status_allocate, status_from_iree, consume, give_back,
}
use hrx_system_rs.Status.Payload.Held.{Holds, statuses_of, convert-Holds}

from_iree-to_iree-from_iree_example :
    (hrx_status_to_iree (hrx_status_from_iree {C = ℕ} ok_env [] (some 8)) ≡ some 8)
    × (hrx_status_code (
          hrx_status_from_iree {C = ℕ} ok_env []
            (hrx_status_to_iree (hrx_status_from_iree {C = ℕ} ok_env [] (some 8))))
        ≡ hrx_status_code (hrx_status_from_iree {C = ℕ} ok_env [] (some 8)))
from_iree-to_iree-from_iree_example = from_iree-to_iree-from_iree {C = ℕ} ok_env [] 8 refl

is_ok-from_iree_example :
    hrx_status_is_ok (hrx_status_from_iree {C = ℕ} ok_env [] (some 13)) ≡ false
is_ok-from_iree_example = is_ok-from_iree {C = ℕ} ok_env [] 13

-- An IREE status at the address 1.
abbrev one_status : List PayloadCall
one_status = iree_status_allocate 3 7 ∷ []

-- The text cannot be made, and the status is given back to IREE.
convert-Holds_example :
    Ensures
      (λ r _ t'. Holds (fails_at 2) [] [] (statuses_of r []) t')
      ((status_from_iree (λ s. 3) 9 7 (some 1) >>= consume (λ s. 3) 9 7 give_back)
        (fails_at 2)
        tt
        one_status)
convert-Holds_example =
    convert-Holds (fails_at 2) [] [] [] (λ s. 3) 9 7 give_back (some 1) one_status
      (record { same_blocks = refl; same_texts = refl; same_statuses = refl })
