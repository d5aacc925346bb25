-- ===== src/Status.antt =====
-- crates/hrx-libhrx/src/common.rs and status.rs: status codes, and the conversion between IREE's
-- statuses and HRX's. A status is a value here; Payload has the memory that it is made of.
pub mod Codes
pub mod Payload
use hrx_system_rs.Base.{Bool, true, false, ℕ, Option, none, some, List, String, ◌==◌, if◌then◌else◌}
use hrx_system_rs.Ffi.{IreeStatus, HrxStatus, Env, M, done, pure}

pub data HrxStatusCode : Type 0 where
  ok cancelled unknown invalid_argument deadline_exceeded not_found already_exists : HrxStatusCode
  permission_denied out_of_memory failed_precondition aborted out_of_range : HrxStatusCode
  unimplemented internal unavailable data_loss : HrxStatusCode

abbrev pub to_i32 : HrxStatusCode → ℕ
to_i32 HrxStatusCode.ok = 0
to_i32 HrxStatusCode.cancelled = 1
to_i32 HrxStatusCode.unknown = 2
to_i32 HrxStatusCode.invalid_argument = 3
to_i32 HrxStatusCode.deadline_exceeded = 4
to_i32 HrxStatusCode.not_found = 5
to_i32 HrxStatusCode.already_exists = 6
to_i32 HrxStatusCode.permission_denied = 7
to_i32 HrxStatusCode.out_of_memory = 8
to_i32 HrxStatusCode.failed_precondition = 9
to_i32 HrxStatusCode.aborted = 10
to_i32 HrxStatusCode.out_of_range = 11
to_i32 HrxStatusCode.unimplemented = 12
to_i32 HrxStatusCode.internal = 13
to_i32 HrxStatusCode.unavailable = 14
to_i32 HrxStatusCode.data_loss = 15

module _ {C : Type 0} (e : Env C) (t : List C) where
  -- The message of a payload: NULL is passed on as NULL.
  abbrev pub copy_message : Option String → Option String
  copy_message none = none
  copy_message (some message) = e.dup t message

  -- A payload that cannot be allocated leaves NULL, which is also the status of success.
  unfoldable pub hrx_make_status : ℕ → Option String → HrxStatus
  hrx_make_status code message =
      if code == 0
      then none
      else if e.malloc_fails t
      then none
      else some (record { code = code; message = copy_message message })

unfoldable pub hrx_code_from_iree : ℕ → ℕ
hrx_code_from_iree c =
    if c == 3
    then to_i32 HrxStatusCode.invalid_argument
    else if c == 5
    then to_i32 HrxStatusCode.not_found
    else if c == 6
    then to_i32 HrxStatusCode.already_exists
    else if c == 11
    then to_i32 HrxStatusCode.out_of_range
    else if c == 12
    then to_i32 HrxStatusCode.unimplemented
    else if c == 14
    then to_i32 HrxStatusCode.unavailable
    else if c == 8
    then to_i32 HrxStatusCode.out_of_memory
    else if c == 4
    then to_i32 HrxStatusCode.deadline_exceeded
    else to_i32 HrxStatusCode.internal

abbrev or_unformatted : Option String → Option String
or_unformatted none = some "IREE error (could not format message)"
or_unformatted (some text) = some text

unfoldable pub hrx_status_from_iree : {C : Type 0} → Env C → List C → IreeStatus → HrxStatus
unfolding hrx_make_status
hrx_status_from_iree e t none = none
hrx_status_from_iree e t (some c) =
    hrx_make_status e t (hrx_code_from_iree c) (or_unformatted (e.describe t c))

-- The status that `iree_status_allocate_f` makes of the code; the message goes along with it.
unfoldable pub hrx_status_to_iree : HrxStatus → IreeStatus
hrx_status_to_iree none = none
hrx_status_to_iree (some s) =
    some (if s.code == to_i32 HrxStatusCode.out_of_memory then 8 else s.code)

abbrev pub hrx_status_is_ok : HrxStatus → Bool
hrx_status_is_ok none = true
hrx_status_is_ok (some s) = false

unfoldable pub hrx_status_code : HrxStatus → ℕ
hrx_status_code none = 0
hrx_status_code (some s) = s.code

module _ {C S : Type 0} where
  -- `return hrx_make_status(code, message)`.
  abbrev pub fail : HrxStatusCode → String → M C S HrxStatus
  fail code message e s t = done (hrx_make_status e t (to_i32 code) (some message)) s t

  -- `return hrx_status_from_iree(status)`.
  abbrev pub from_iree : IreeStatus → M C S HrxStatus
  from_iree status e s t = done (hrx_status_from_iree e t status) s t

  -- `if !status_is_ok(status) { return hrx_status_from_iree(status); }` before the rest.
  abbrev pub check : IreeStatus → M C S HrxStatus → M C S HrxStatus
  check none rest = rest
  check (some c) rest = from_iree (some c)

  -- `if !hrx_status_is_ok(status) { return status; }` before the rest.
  abbrev pub check_hrx : HrxStatus → M C S HrxStatus → M C S HrxStatus
  check_hrx none rest = rest
  check_hrx (some p) rest = pure (some p)
