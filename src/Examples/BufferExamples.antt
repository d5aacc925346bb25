-- ===== src/Examples/BufferExamples.antt =====
-- crates/hrx-libhrx/src/buffer.rs on concrete sequences of calls.
use hrx_system_rs.Base.{◌+◌, ◌-◌, ◌^◌, ◌<◌, ◌≡◌, refl, some, List, [], ◌∷◌, arith}
use hrx_system_rs.Ffi.Ensures.{Ensures}
use hrx_system_rs.Ffi.Samples.{ok_env}
use hrx_system_rs.Hal.Samples.{sample_objects}
use hrx_system_rs.Buffer.{Arc, device_transfer_h2d, hrx_buffer_get_device_ptr}
use hrx_system_rs.Buffer.Transfer.{hrx_synchronous_h2d, hrx_synchronous_d2h}
use hrx_system_rs.Buffer.Memory.{AllocatorHandles, new_buffer}
use hrx_system_rs.Buffer.Client.{BufferOp, retain, release, unmap, map, get_device_ptr, h2d, run}
use hrx_system_rs.Buffer.Ledger.{Holds}
use hrx_system_rs.Buffer.Ownership.{run-new_buffer-Holds}
use hrx_system_rs.Buffer.Bounds.{
  Again, AllInBounds, transfer-bounds, hrx_synchronous_h2d-overflow,
  hrx_buffer_get_device_ptr-Again,
}

abbrev allocators : AllocatorHandles
allocators = record { hal_allocator = λ n. n; device = λ n. n }

abbrev fresh : Arc
fresh = record { strong = 1; inner = new_buffer 5 (some 6) 9 0 64 }

-- The buffer is still mapped when the last reference goes.
abbrev calls : List BufferOp
calls =
    retain
    ∷ map 3 3 0 16 1
    ∷ unmap 3
    ∷ get_device_ptr 3 1
    ∷ map 3 1 0 8 1
    ∷ release
    ∷ h2d 9 4 3 60 8
    ∷ release
    ∷ []

run-new_buffer-Holds_example :
    Ensures
      (λ _ a t. Holds ok_env (new_buffer 5 (some 6) 9 0 64) 0 a t)
      (run sample_objects.hal_device allocators calls ok_env fresh [])
run-new_buffer-Holds_example =
    run-new_buffer-Holds sample_objects.hal_device allocators ok_env 5 (some 6) 9 0 64 calls 0 refl

transfer-bounds_example :
    Ensures
      (λ _ a t. (a ≡ fresh) × AllInBounds 64 t)
      (hrx_synchronous_h2d sample_objects.hal_device 9 4 3 16 48 ok_env fresh [])
    × Ensures
        (λ _ a t. (a ≡ fresh) × AllInBounds 64 t)
        (hrx_synchronous_d2h sample_objects.hal_device 9 3 16 4 48 ok_env fresh [])
transfer-bounds_example =
    transfer-bounds sample_objects.hal_device ok_env 9 4 3 16 48 fresh [] (ground arith)
      (ground arith) tt

-- The range starts at the last byte of the address space and has two bytes.
hrx_synchronous_h2d-overflow_example :
    Ensures
      (λ _ a t. (t ≡ device_transfer_h2d 109 4 5 (2 ^ 64 - 1) 2 ∷ []) × (64 < (2 ^ 64 - 1) + 2))
      (hrx_synchronous_h2d sample_objects.hal_device 9 4 3 (2 ^ 64 - 1) 2 ok_env fresh [])
hrx_synchronous_h2d-overflow_example =
    hrx_synchronous_h2d-overflow sample_objects.hal_device ok_env 9 4 3 (2 ^ 64 - 1) 2 fresh []
      (ground arith) (ground arith) (ground arith) (ground arith) (ground arith) (ground arith)
      (ground arith) (ground arith)

hrx_buffer_get_device_ptr-Again_example :
    Ensures
      (λ first a t. Ensures (Again first a t) (hrx_buffer_get_device_ptr 3 1 ok_env a t))
      (hrx_buffer_get_device_ptr 3 1 ok_env fresh [])
hrx_buffer_get_device_ptr-Again_example =
    hrx_buffer_get_device_ptr-Again ok_env 3 1 fresh [] (λ u. refl) (ground arith)
