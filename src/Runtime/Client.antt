-- ===== src/Runtime/Client.antt =====
-- A client of crates/hrx-libhrx/src/runtime.rs: any sequence of the calls that use the global state.
use hrx_system_rs.Base.{ℕ, ◌≡◌, none, some, List, [], ◌∷◌, ℤ, arith}
use hrx_system_rs.Ffi.{Env, HrxStatus, Run, done, fault, pure, ◌>>=◌, ◌>>◌}
use hrx_system_rs.Ffi.Ensures.{Ensures, bind, mono}
use hrx_system_rs.Runtime.{Globals, DeviceInfo, RuntimeCall, R, initial_globals}
use hrx_system_rs.Runtime.Cpu.{
  hrx_cpu_initialize, hrx_cpu_shutdown, hrx_cpu_device_count, hrx_cpu_device_get,
}
use hrx_system_rs.Runtime.Gpu.{
  hrx_gpu_initialize, hrx_gpu_shutdown, hrx_gpu_device_count, hrx_gpu_device_get,
}
use hrx_system_rs.Runtime.Counts.{Documented, IsCounted, Atomic}
use hrx_system_rs.Runtime.CpuCounts.{hrx_cpu_initialize-Atomic, hrx_cpu_shutdown-Atomic}
use hrx_system_rs.Runtime.GpuAtomic.{hrx_gpu_initialize-Atomic, hrx_gpu_shutdown-Atomic}
use hrx_system_rs.Runtime.Devices.{
  DeviceAt, hrx_cpu_device_count-same, hrx_cpu_device_get-DeviceAt, hrx_gpu_device_count-same,
  hrx_gpu_device_get-DeviceAt,
}

pub data GlobalCall : Type 0 where
  cpu_initialize cpu_shutdown gpu_initialize gpu_shutdown : GlobalCall
  cpu_device_count gpu_device_count : ℕ → GlobalCall
  cpu_device_get gpu_device_get : ℤ → ℕ → GlobalCall

abbrev ignore : {A : Type 0} → R A → R (Unit {0})
ignore m = do a ← m; pure tt

module _ (reported : List RuntimeCall → List DeviceInfo) where
  unfoldable pub step : GlobalCall → R (Unit {0})
  step cpu_initialize = ignore hrx_cpu_initialize
  step cpu_shutdown = ignore hrx_cpu_shutdown
  step gpu_initialize = ignore (hrx_gpu_initialize reported)
  step gpu_shutdown = ignore hrx_gpu_shutdown
  step (cpu_device_count p) = ignore (hrx_cpu_device_count p)
  step (gpu_device_count p) = ignore (hrx_gpu_device_count p)
  step (cpu_device_get i p) = ignore (hrx_cpu_device_get i p)
  step (gpu_device_get i p) = ignore (hrx_gpu_device_get i p)

  unfoldable pub run : List GlobalCall → R (Unit {0})
  run [] = pure tt
  run (c ∷ cs) = do step c; run cs

module _ (e : Env RuntimeCall) (doc : Documented e) where
  Atomic-IsCounted :
      (g : Globals) (r : Run RuntimeCall Globals HrxStatus)
      → Ensures (Atomic g) r
      → Ensures (λ _ g' _. IsCounted g') (elim r [ done a s' t' ↦ done tt s' t' | fault ↦ fault ])
  Atomic-IsCounted g (done none g' t) v = v
  Atomic-IsCounted g (done (some p) g' t) v = v.0
  Atomic-IsCounted g fault v = v

  same-IsCounted :
      {A : Type 0} (g : Globals) (r : Run RuntimeCall Globals A)
      → IsCounted g
      → Ensures (λ _ g' _. g' ≡ g) r
      → Ensures (λ _ g' _. IsCounted g') (elim r [ done a s' t' ↦ done tt s' t' | fault ↦ fault ])
  same-IsCounted g (done a g' t) v p = rw p v
  same-IsCounted g fault v p = p

  module _ (reported : List RuntimeCall → List DeviceInfo) where
    step-IsCounted :
        (c : GlobalCall) (g : Globals) (t : List RuntimeCall)
        → IsCounted g
        → Ensures (λ _ g' _. IsCounted g') (step reported c e g t)
    unfolding step
    step-IsCounted cpu_initialize g t v =
        Atomic-IsCounted g _ (hrx_cpu_initialize-Atomic e doc g t v)
    step-IsCounted cpu_shutdown g t v = Atomic-IsCounted g _ (hrx_cpu_shutdown-Atomic e doc g t v)
    step-IsCounted gpu_initialize g t v =
        Atomic-IsCounted g _ (hrx_gpu_initialize-Atomic e doc reported g t v)
    step-IsCounted gpu_shutdown g t v = Atomic-IsCounted g _ (hrx_gpu_shutdown-Atomic e doc g t v)
    step-IsCounted (cpu_device_count p) g t v =
        same-IsCounted g _ v (hrx_cpu_device_count-same e g t p)
    step-IsCounted (gpu_device_count p) g t v =
        same-IsCounted g _ v (hrx_gpu_device_count-same e g t p)
    step-IsCounted (cpu_device_get i p) g t v = same-IsCounted g _ v (
        mono (DeviceAt g.cpu i p g) (λ _ g' _. g' ≡ g) (hrx_cpu_device_get i p e g t)
          (hrx_cpu_device_get-DeviceAt e doc i p g t v) (λ a g' t' d. d.0))
    step-IsCounted (gpu_device_get i p) g t v = same-IsCounted g _ v (
        mono (DeviceAt g.gpu i p g) (λ _ g' _. g' ≡ g) (hrx_gpu_device_get i p e g t)
          (hrx_gpu_device_get-DeviceAt e doc i p g t v) (λ a g' t' d. d.0))

    pub run-IsCounted :
        (cs : List GlobalCall) (g : Globals) (t : List RuntimeCall)
        → IsCounted g
        → Ensures (λ _ g' _. IsCounted g') (run reported cs e g t)
    unfolding run
    run-IsCounted [] g t v = v
    run-IsCounted (c ∷ cs) g t v =
        bind (λ _ g' _. IsCounted g') (λ _ g' _. IsCounted g') (step reported c e g t) _
          (step-IsCounted c g t v) (λ _ g' u w. run-IsCounted cs g' u w)

    -- Started from the state at load, any sequence of the calls ends without a panic: the count of
    -- references equals the number of accelerators that are initialised, the instance and the pool
    -- are NULL once none is, and each device table has as many entries, 64 at most, as it counts.
    pub run-initial-IsCounted :
        (cs : List GlobalCall)
        → Ensures (λ _ g' _. IsCounted g') (run reported cs e initial_globals [])
    run-initial-IsCounted cs = run-IsCounted cs initial_globals [] (ground arith)
