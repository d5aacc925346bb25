-- ===== src/Buffer/Transfer.antt =====
-- crates/hrx-libhrx/src/buffer.rs: the synchronous transfers between a buffer and host memory.
use hrx_system_rs.Base.{ℕ, ◌||◌, ltb, if◌then◌else◌, add_u64}
use hrx_system_rs.Ffi.{HrxStatus, ◌>>=◌, call}
use hrx_system_rs.Hal.{is_null}
use hrx_system_rs.Status.{HrxStatusCode, fail, from_iree}
use hrx_system_rs.Buffer.{device_transfer_h2d, device_transfer_d2h, B, handle_ref}

module _ (hal_device : ℕ → ℕ) where
  -- The sum of the bounds check wraps, as in a release build.
  unfoldable pub hrx_synchronous_h2d : ℕ → ℕ → ℕ → ℕ → ℕ → B HrxStatus
  hrx_synchronous_h2d device host_src dst dst_offset size =
      if is_null device || is_null host_src || is_null dst
      then fail HrxStatusCode.invalid_argument "NULL argument"
      else do
        b ← handle_ref
        if ltb b.size (add_u64 dst_offset size)
            then fail HrxStatusCode.out_of_range "transfer exceeds buffer size"
            else do
              r ←
                  call
                    (device_transfer_h2d (hal_device device) host_src b.hal_buffer dst_offset size)
              from_iree r.status

  unfoldable pub hrx_synchronous_d2h : ℕ → ℕ → ℕ → ℕ → ℕ → B HrxStatus
  hrx_synchronous_d2h device src src_offset host_dst size =
      if is_null device || is_null src || is_null host_dst
      then fail HrxStatusCode.invalid_argument "NULL argument"
      else do
        b ← handle_ref
        if ltb b.size (add_u64 src_offset size)
            then fail HrxStatusCode.out_of_range "transfer exceeds buffer size"
            else do
              r ←
                  call
                    (device_transfer_d2h (hal_device device) host_dst b.hal_buffer src_offset size)
              from_iree r.status
