-- ===== src/Objects/Executable/Exports.antt =====
-- crates/hrx-libhrx/src/executable.rs: the exports of a live executable, by number and by name.
use hrx_system_rs.Base.{
  ℕ, ◌-◌, ◌^◌, ◌%◌, ◌||◌, Option, none, some, List, ltb, if◌then◌else◌, String,
}
use hrx_system_rs.Ffi.{HrxStatus, IreeStatus, done, pure, ◌>>=◌, call, get}
use hrx_system_rs.Hal.{is_null}
use hrx_system_rs.Status.{HrxStatusCode, fail, from_iree}
use hrx_system_rs.Objects.{ObjectCall, O, function_count, function_info, lookup_function_by_name}
use hrx_system_rs.Objects.Executable.{HrxExecutableS, CString}

-- `iree_hal_executable_function_info_t`, and the public record that is made of it: the name is the
-- pointer to its characters.
pub record FunctionInfo : Type 0 where
  pub name : ℕ
  pub flags : ℕ
  pub constant_count : ℕ
  pub binding_count : ℕ
  pub parameter_count : ℕ
  pub workgroup_size : ℕ × ℕ × ℕ

abbrev pub X : Type 0 → Type 0
X A = O HrxExecutableS A

-- A status, and the value that is written through the out pointer.
abbrev refuse : {A : Type 0} → HrxStatusCode → String → X (HrxStatus × Option A)
refuse code message = do status ← fail code message; pure (status, none)

unfoldable pub hrx_executable_export_count : ℕ → ℕ → X (HrxStatus × Option ℕ)
hrx_executable_export_count executable count =
    if is_null executable || is_null count
    then refuse HrxStatusCode.invalid_argument "executable or count is NULL"
    else do x ← get; r ← call (function_count x.hal_executable); pure (none, some r.num)

-- What IREE writes of a function is a function of the trace.
module _ (info : List ObjectCall → FunctionInfo) where
  abbrev informed : IreeStatus → X (HrxStatus × Option FunctionInfo)
  informed (some c) = do status ← from_iree (some c); pure (status, none)
  informed none = λ e s t. done (none, some (info t)) s t

  -- The function with an ordinal is `{ value: ordinal }`.
  unfoldable pub hrx_executable_export_info : ℕ → ℕ → ℕ → X (HrxStatus × Option FunctionInfo)
  hrx_executable_export_info executable export_ordinal out_info =
      if is_null executable || is_null out_info
      then refuse HrxStatusCode.invalid_argument "executable or out_info is NULL"
      else do x ← get; r ← call (function_info x.hal_executable export_ordinal); informed r.status

abbrev found : IreeStatus → ℕ → X (HrxStatus × Option ℕ)
found (some c) value = do status ← from_iree (some c); pure (status, none)
found none value =
    if ltb (2 ^ 32 - 1) value
    then refuse HrxStatusCode.unimplemented "executable function is not a dense ordinal"
    else pure (none, some (value % 2 ^ 32))

unfoldable pub hrx_executable_lookup_export_by_name : ℕ → CString → ℕ → X (HrxStatus × Option ℕ)
hrx_executable_lookup_export_by_name executable name export_ordinal =
    if is_null executable || is_null name.ptr || is_null export_ordinal
    then refuse HrxStatusCode.invalid_argument "executable, name, or export_ordinal is NULL"
    else do
      x ← get
      r ← call (lookup_function_by_name x.hal_executable name.text)
      found r.status r.num
