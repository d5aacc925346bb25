-- ===== src/Objects/Executable/LoadFile.antt =====
-- crates/hrx-libhrx/src/executable.rs: an executable from a file, which is read whole into memory of the
-- system allocator.
use hrx_system_rs.Base.{
  ℕ, Bool, false, not, ◌||◌, none, ◌==◌, if◌then◌else◌, String, ℤ, pos, negsuc, as_i64,
}
use hrx_system_rs.Ffi.{pure, ◌>>=◌, ◌>>◌, call, emit}
use hrx_system_rs.Hal.{is_null}
use hrx_system_rs.Status.{HrxStatusCode, from_iree, hrx_status_is_ok}
use hrx_system_rs.Objects.{
  O, fopen, seek_end, seek_start, ftell, fread, fclose, malloc_uninitialized, allocator_free,
}
use hrx_system_rs.Objects.Executable.{Loaded, CString, refuse, hrx_executable_load_data}

abbrev is_positive : ℤ → Bool
is_positive (pos n) = not (n == 0)
is_positive (negsuc n) = false

module _ (hal_device : ℕ → ℕ) {S : Type 0} where
  abbrev close_and_refuse : ℕ → HrxStatusCode → String → O S Loaded
  close_and_refuse file code message = do emit (fclose file); refuse code message

  -- With the bytes in memory.
  unfoldable pub load_and_free : ℕ → ℕ → ℕ → CString → ℕ → O S Loaded
  unfolding hrx_executable_load_data
  load_and_free device memory file_size executable_format executable = do
    made ← hrx_executable_load_data hal_device device memory file_size executable_format executable
    emit (allocator_free memory)
    pure made

  unfoldable pub read_file : ℕ → ℕ → ℕ → CString → ℕ → O S Loaded
  unfolding load_and_free
  read_file device file file_size executable_format executable = do
    m ← call (malloc_uninitialized file_size)
    status ← from_iree m.status
    if not (hrx_status_is_ok status) then (do emit (fclose file); pure (status, none)) else do
      r ← call (fread m.ptr file_size file)
      emit (fclose file)
      if not (r.num == file_size)
          then (do
            emit (allocator_free m.ptr)
            refuse HrxStatusCode.data_loss "short read while loading executable file")
          else load_and_free device m.ptr file_size executable_format executable

  unfoldable pub hrx_executable_load_file : ℕ → CString → CString → ℕ → O S Loaded
  unfolding read_file
  hrx_executable_load_file device path executable_format executable =
      if is_null device || is_null path.ptr || is_null executable
      then refuse HrxStatusCode.invalid_argument "device, path, or executable is NULL"
      else do
        f ← call (fopen path.text)
        if is_null f.ptr
            then refuse HrxStatusCode.not_found "failed to open executable file"
            else do
              e ← call (seek_end f.ptr)
              if not (e.num == 0)
                  then close_and_refuse f.ptr HrxStatusCode.internal
                      "failed to seek executable file"
                  else do
                    n ← call (ftell f.ptr)
                    if not (is_positive (as_i64 n.num))
                        then close_and_refuse f.ptr HrxStatusCode.invalid_argument
                            "empty executable file"
                        else do
                          b ← call (seek_start f.ptr)
                          if not (b.num == 0)
                              then close_and_refuse f.ptr HrxStatusCode.internal
                                  "failed to rewind executable file"
                              else read_file device f.ptr n.num executable_format executable
