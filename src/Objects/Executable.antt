-- ===== src/Objects/Executable.antt =====
-- crates/hrx-libhrx/src/executable.rs: loading an executable from memory and from a file, and its
-- exports. The state of the operations on a live executable is the object behind the handle.
pub mod LoadFile
pub mod Loading
pub mod Exports
use hrx_system_rs.Base.{
  ℕ, ◌^◌, ◌%◌, Bool, true, false, not, ◌||◌, Option, none, some, List, [], ◌∷◌, ltb, ◌==◌,
  if◌then◌else◌, String, ℤ, pos, negsuc,
}
use hrx_system_rs.Ffi.{HrxStatus, IreeStatus, pure, panic, ◌>>=◌, ◌>>◌, call, emit, get}
use hrx_system_rs.Hal.{is_null}
use hrx_system_rs.Status.{HrxStatusCode, fail, from_iree}
use hrx_system_rs.Objects.{
  O, ExecutableParams, executable_cache_create, executable_cache_release, executable_release,
  function_count, prepare_executable, function_info, lookup_function_by_name, fopen, seek_end,
  seek_start, ftell, fread, fclose, malloc_uninitialized, allocator_free, device_retain,
  device_release,
}

pub record HrxExecutableS : Type 0 where
  pub hal_executable : ℕ
  pub hal_executable_cache : ℕ
  pub device : ℕ

-- A status, and the object behind `*executable` when there is one.
abbrev pub Loaded : Type 0
Loaded = HrxStatus × Option HrxExecutableS

-- A C string behind a pointer, which may be NULL.
pub record CString : Type 0 where
  pub ptr : ℕ
  pub text : List ℕ

abbrev is_empty : List ℕ → Bool
is_empty [] = true
is_empty (c ∷ s) = false

module _ {S : Type 0} where
  abbrev pub refuse : HrxStatusCode → String → O S Loaded
  refuse code message = do status ← fail code message; pure (status, none)

  abbrev or_cleanup : IreeStatus → O S (Unit {0}) → O S Loaded → O S Loaded
  or_cleanup none cleanup rest = rest
  or_cleanup (some c) cleanup rest = do cleanup; status ← from_iree (some c); pure (status, none)

  -- `wrap`: both objects are expected not to be NULL.
  abbrev wrap : ℕ → ℕ → ℕ → O S Loaded
  wrap device cache exe = if is_null exe || is_null cache then panic else do
    emit (device_retain device)
    pure (
      none,
      some (record { hal_executable = exe; hal_executable_cache = cache; device = device }),
    )

  -- The fields drop in the order of their declaration.
  unfoldable pub drop_executable : HrxExecutableS → O S (Unit {0})
  drop_executable x = do
    emit (executable_release x.hal_executable)
    emit (executable_cache_release x.hal_executable_cache)
    emit (device_release x.device)

  module _ (hal_device : ℕ → ℕ) where
    unfoldable pub hrx_executable_load_data : ℕ → ℕ → ℕ → CString → ℕ → O S Loaded
    hrx_executable_load_data device executable_data executable_data_size executable_format
          executable =
        if is_null device
          || is_null executable
          || is_null executable_data
          || executable_data_size == 0
        then refuse HrxStatusCode.invalid_argument
            "device, executable_data, or executable is invalid"
        else do
          c ← call (executable_cache_create (hal_device device))
          or_cleanup c.status (pure tt) do
            if is_null executable_format.ptr || is_empty executable_format.text
                then (do
                  emit (executable_cache_release c.ptr)
                  refuse HrxStatusCode.invalid_argument "executable_format is required")
                else do
                  x ← call (
                      prepare_executable c.ptr (record {
                        format = executable_format.text;
                        data_ = executable_data;
                        data_size = executable_data_size;
                        caching_mode = 0;
                      }))
                  or_cleanup x.status (emit (executable_cache_release c.ptr))
                      (wrap device c.ptr x.ptr)
