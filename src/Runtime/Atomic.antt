-- ===== src/Runtime/Atomic.antt =====
-- crates/hrx-libhrx/src/runtime.rs: the initialisation of an accelerator and its errors.
use hrx_system_rs.Base.{List}
use hrx_system_rs.Ffi.{Env}
use hrx_system_rs.Ffi.Ensures.{Ensures}
use hrx_system_rs.Runtime.{Globals, DeviceInfo, RuntimeCall}
use hrx_system_rs.Runtime.Cpu.{hrx_cpu_initialize}
use hrx_system_rs.Runtime.Gpu.{hrx_gpu_initialize}
use hrx_system_rs.Runtime.Counts.{Documented, IsCounted, Atomic}
use hrx_system_rs.Runtime.CpuCounts.{hrx_cpu_initialize-Atomic}
use hrx_system_rs.Runtime.GpuAtomic.{hrx_gpu_initialize-Atomic}

module _ (e : Env RuntimeCall) (doc : Documented e) (g : Globals) (t : List RuntimeCall)
    (counted : IsCounted g) where
  -- Initialising an accelerator, the CPU or the GPU, does not panic and keeps the runtime's counts,
  -- and when it reports an error, at whichever device or call, both accelerators are as they were.
  -- Payload allocations do not fail and a successful IREE call makes an object.
  pub initialize-Atomic :
      (reported : List RuntimeCall → List DeviceInfo)
      → Ensures (Atomic g) (hrx_cpu_initialize e g t)
        × Ensures (Atomic g) (hrx_gpu_initialize reported e g t)
  initialize-Atomic reported = (
    hrx_cpu_initialize-Atomic e doc g t counted,
    hrx_gpu_initialize-Atomic e doc reported g t counted,
  )
