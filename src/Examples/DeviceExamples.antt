-- ===== src/Examples/DeviceExamples.antt =====
-- crates/hrx-libhrx/src/device.rs on concrete devices.
use hrx_system_rs.Base.{◌≡◌, refl, [], ◌∷◌, pos, arith}
use hrx_system_rs.Ffi.Ensures.{Ensures}
use hrx_system_rs.Ffi.Samples.{ok_env}
use hrx_system_rs.Device.{HrxDeviceS, cstr_array, hrx_device_get_property}
use hrx_system_rs.Device.Properties.{
  Fits, NameWritten, cstr_array-Terminated, hrx_device_get_property-Fits,
  hrx_device_get_property-NameWritten,
}

-- "CPU" and "host".
abbrev cpu : HrxDeviceS
cpu = record {
  type_ = 1;
  hal_device = 5;
  name = cstr_array 128 (67 ∷ 80 ∷ 85 ∷ []);
  architecture = cstr_array 64 (104 ∷ 111 ∷ 115 ∷ 116 ∷ []);
}

hrx_device_get_property-Fits_example :
    Ensures
      (λ r dev _. (dev ≡ cpu) × Fits 8 r)
      (hrx_device_get_property 1 (pos 2) 1 8 ok_env cpu [])
hrx_device_get_property-Fits_example =
    hrx_device_get_property-Fits ok_env 1 1 8 (pos 2) cpu []
      (cstr_array-Terminated 128 (67 ∷ 80 ∷ 85 ∷ []) (ground arith))
      (cstr_array-Terminated 64 (104 ∷ 111 ∷ 115 ∷ 116 ∷ []) (ground arith))

hrx_device_get_property-NameWritten_example :
    Ensures
      (λ r _ _. NameWritten (67 ∷ 80 ∷ 85 ∷ []) 4 r)
      (hrx_device_get_property 1 (pos 0) 1 4 ok_env cpu [])
hrx_device_get_property-NameWritten_example =
    hrx_device_get_property-NameWritten ok_env 1 1 4 cpu [] (67 ∷ 80 ∷ 85 ∷ []) (λ u. refl)
      (ground arith) (ground arith) (ground arith) refl
