-- ===== src/Examples/RuntimeExamples.antt =====
-- crates/hrx-libhrx/src/runtime.rs on concrete sequences of calls.
use hrx_system_rs.Base.{ℕ, refl, List, [], ◌∷◌, pos, negsuc, arith, true}
use hrx_system_rs.Ffi.Ensures.{Ensures}
use hrx_system_rs.Ffi.Samples.{fails_at}
use hrx_system_rs.Runtime.{Globals, DeviceInfo, RuntimeCall, initial_globals}
use hrx_system_rs.Runtime.Cpu.{hrx_cpu_initialize, hrx_cpu_shutdown, hrx_cpu_device_get}
use hrx_system_rs.Runtime.Gpu.{hrx_gpu_initialize, hrx_gpu_shutdown, hrx_gpu_device_get}
use hrx_system_rs.Runtime.Counts.{Documented, IsCounted, Atomic}
use hrx_system_rs.Runtime.Atomic.{initialize-Atomic}
use hrx_system_rs.Runtime.Shutdown.{CpuClosed, GpuClosed, shutdown-Closed}
use hrx_system_rs.Runtime.Devices.{DeviceAt, device_get-DeviceAt}
use hrx_system_rs.Runtime.Client.{
  GlobalCall, cpu_initialize, cpu_shutdown, gpu_initialize, gpu_shutdown, cpu_device_get,
  gpu_device_count, run, run-initial-IsCounted,
}

fails_at-Documented : (n : ℕ) → Documented (fails_at n)
fails_at-Documented n = record {
  rich = λ t. refl;
  device = λ driver pool t ok. ground arith;
  ordinal = λ driver index pool t ok. ground arith;
  group = λ hal_device tracker t ok. ground arith;
  allocator = λ hal_device t. ground arith;
}

-- Two devices and, between them, a pseudo-device.
abbrev infos : List RuntimeCall → List DeviceInfo
infos t = record { path_size = 3 } ∷ record { path_size = 0 } ∷ record { path_size = 5 } ∷ []

abbrev calls : List GlobalCall
calls =
    gpu_initialize
    ∷ cpu_initialize
    ∷ gpu_device_count 1
    ∷ cpu_device_get (pos 0) 1
    ∷ gpu_shutdown
    ∷ cpu_device_get (negsuc 0) 1
    ∷ cpu_shutdown
    ∷ []

run-initial-IsCounted_example :
    Ensures (λ _ g _. IsCounted g) (run infos calls (fails_at 9) initial_globals [])
run-initial-IsCounted_example =
    run-initial-IsCounted (fails_at 9) (fails_at-Documented 9) infos calls

initial-IsCounted : IsCounted initial_globals
initial-IsCounted = ground arith

-- With one CPU device.
abbrev cpu_running : Globals
cpu_running = record {
  shared = record { vm_instance = 1; proactor_pool = 2; init_count = 1; initialized = true };
  cpu = record { devices = 6 ∷ []; device_count = 1; initialized = true; driver = 4 };
  gpu = initial_globals.gpu;
}

cpu_running-IsCounted : IsCounted cpu_running
cpu_running-IsCounted = ground arith

abbrev gpu_running : Globals
gpu_running = record {
  shared = record { vm_instance = 1; proactor_pool = 2; init_count = 1; initialized = true };
  cpu = initial_globals.cpu;
  gpu = record { devices = 6 ∷ 7 ∷ []; device_count = 2; initialized = true; driver = 4 };
}

gpu_running-IsCounted : IsCounted gpu_running
gpu_running-IsCounted = ground arith

initialize-Atomic_example :
    Ensures (Atomic cpu_running) (hrx_cpu_initialize (fails_at 20) cpu_running [])
    × Ensures (Atomic cpu_running) (hrx_gpu_initialize infos (fails_at 20) cpu_running [])
initialize-Atomic_example =
    initialize-Atomic (fails_at 20) (fails_at-Documented 20) cpu_running [] cpu_running-IsCounted
      infos

shutdown-Closed_example :
    Ensures (CpuClosed gpu_running []) (hrx_cpu_shutdown (fails_at 5) gpu_running [])
    × Ensures (GpuClosed gpu_running []) (hrx_gpu_shutdown (fails_at 5) gpu_running [])
shutdown-Closed_example =
    shutdown-Closed (fails_at 5) (fails_at-Documented 5) gpu_running [] gpu_running-IsCounted

device_get-DeviceAt_example :
    Ensures
      (DeviceAt gpu_running.cpu (pos 1) 1 gpu_running)
      (hrx_cpu_device_get (pos 1) 1 (fails_at 5) gpu_running [])
    × Ensures
        (DeviceAt gpu_running.gpu (pos 1) 1 gpu_running)
        (hrx_gpu_device_get (pos 1) 1 (fails_at 5) gpu_running [])
device_get-DeviceAt_example =
    device_get-DeviceAt (fails_at 5) (fails_at-Documented 5) (pos 1) 1 gpu_running []
      gpu_running-IsCounted
