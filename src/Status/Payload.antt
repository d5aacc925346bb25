-- ===== src/Status/Payload.antt =====
-- crates/hrx-libhrx/src/common.rs and status.rs with the memory of a status: its payload and its message
-- are blocks of libc, the text of an IREE status is memory of IREE's allocator, and an IREE status is
-- freed once. Pointers are numbers; `code_of` reads the code of an IREE status.
pub mod Held
use hrx_system_rs.Base.{ℕ, Option, none, some, List, ◌==◌, if◌then◌else◌}
use hrx_system_rs.Ffi.{IreeStatus, M, pure, ◌>>=◌, ◌>>◌, call, emit}
use hrx_system_rs.Hal.{is_null}
use hrx_system_rs.Status.{HrxStatusCode, to_i32, hrx_code_from_iree}

pub data PayloadCall : Type 0 where
  malloc_payload : PayloadCall
  strdup free : ℕ → PayloadCall
  iree_status_to_string iree_status_free allocator_free : ℕ → PayloadCall
  -- code, message
  iree_status_allocate : ℕ → ℕ → PayloadCall

-- `HrxStatusS` at its address; a message may be NULL.
pub record Payload : Type 0 where
  pub ptr : ℕ
  pub code : ℕ
  pub message : ℕ

abbrev pub Y : Type 0 → Type 0
Y A = M PayloadCall (Unit {0}) A

abbrev pub duplicated : ℕ → Y ℕ
duplicated message = if is_null message then pure 0 else do m ← call (strdup message); pure m.ptr

unfoldable pub make_status : ℕ → ℕ → Y (Option Payload)
make_status code message = if code == 0 then pure none else do
  s ← call malloc_payload
  if is_null s.ptr
      then pure none
      else do m ← duplicated message; pure (some (record { ptr = s.ptr; code = code; message = m }))

-- `hrx_status_ignore` of the interface and `hrx_status_drop` within the library.
unfoldable pub status_drop : Option Payload → Y (Unit {0})
status_drop none = pure tt
status_drop (some s) = do emit (free s.message); emit (free s.ptr)

-- What a caller does with a status: ignore it, or give it back to IREE.
pub data Fate : Type 0 where
  ignore give_back : Fate

-- The two texts are literals.
module _ (code_of : ℕ → ℕ) (could_not_format no_message : ℕ) where
  unfoldable pub formatted : ℕ → IreeStatus → ℕ → Y (Option Payload)
  unfolding make_status
  formatted s (some c) text = do
    emit (iree_status_free s)
    make_status (hrx_code_from_iree (code_of s)) could_not_format
  formatted s none text = do
    result ← make_status (hrx_code_from_iree (code_of s)) text
    emit (allocator_free text)
    emit (iree_status_free s)
    pure result

  unfoldable pub status_from_iree : Option ℕ → Y (Option Payload)
  unfolding formatted
  status_from_iree none = pure none
  status_from_iree (some s) = do r ← call (iree_status_to_string s); formatted s r.status r.ptr

  unfoldable pub status_to_iree : Option Payload → Y (Option ℕ)
  status_to_iree none = pure none
  status_to_iree (some s) = do
    r ← call (
        iree_status_allocate (if s.code == to_i32 HrxStatusCode.out_of_memory then 8 else s.code)
          (if is_null s.message then no_message else s.message))
    emit (free s.message)
    emit (free s.ptr)
    pure (some r.ptr)

  abbrev pub consume : Fate → Option Payload → Y (Option ℕ)
  consume ignore p = do status_drop p; pure none
  consume give_back p = status_to_iree p
