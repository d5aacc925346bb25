-- ===== src/Runtime/Shutdown.antt =====
-- crates/hrx-libhrx/src/runtime.rs: the shutdown of an accelerator and its calls.
use hrx_system_rs.Base.{
  ℕ, ◌+◌, ◌≡◌, inl, inr, Bool-cases, refl, true, false, none, some, List, [], ◌∷◌, ltb, ◌==◌,
  if◌then◌else◌, arith,
}
use hrx_system_rs.Ffi.{Env, HrxStatus}
use hrx_system_rs.Ffi.Ensures.{Ensures, bind}
use hrx_system_rs.Status.{hrx_make_status}
use hrx_system_rs.Runtime.{
  AcceleratorState, Globals, RuntimeCall, no_accelerator, hrx_device_release, driver_release,
  vm_instance_release, proactor_pool_release,
}
use hrx_system_rs.Runtime.Shared.{release_shared_state}
use hrx_system_rs.Runtime.Cpu.{release_devices, close_cpu, hrx_cpu_shutdown}
use hrx_system_rs.Runtime.Gpu.{close_gpu, hrx_gpu_shutdown}
use hrx_system_rs.Runtime.Counts.{Documented, IsCounted}

-- The trace after the devices of the list are released, in its order.
abbrev devices_released : List ℕ → List RuntimeCall → List RuntimeCall
devices_released [] t = t
devices_released (d ∷ ds) t = devices_released ds (hrx_device_release d ∷ t)

-- The trace after a release, which NULL does without.
abbrev released : (ℕ → RuntimeCall) → ℕ → List RuntimeCall → List RuntimeCall
released release p t = if p == 0 then t else release p ∷ t

-- All devices in their order, then the driver, then with the last reference the proactor pool and the VM
-- instance.
abbrev shut_trace : AcceleratorState → Globals → List RuntimeCall → List RuntimeCall
shut_trace a g t =
    let own = released driver_release a.driver (devices_released a.devices t) in
    if ltb 1 g.shared.init_count
    then own
    else released vm_instance_release g.shared.vm_instance
        (released proactor_pool_release g.shared.proactor_pool own)

-- `a` is the accelerator's state before; `a'` after, and `b`, `b'` are the other's.
abbrev pub Closed :
    AcceleratorState
    → AcceleratorState
    → AcceleratorState
    → AcceleratorState
    → Globals
    → List RuntimeCall
    → HrxStatus
    → Globals
    → List RuntimeCall
    → Type 0
Closed a a' b b' g t none g' t' =
    (a.initialized ≡ true)
    × (a' ≡ no_accelerator)
    × (b' ≡ b)
    × (g'.shared.init_count + 1 ≡ g.shared.init_count)
    × (g'.shared.initialized ≡ ltb 1 g.shared.init_count)
    × (t' ≡ shut_trace a g t)
Closed a a' b b' g t (some p) g' t' = (a.initialized ≡ false) × (g' ≡ g) × (t' ≡ t)

abbrev pub CpuClosed : Globals → List RuntimeCall → HrxStatus → Globals → List RuntimeCall → Type 0
CpuClosed g t r g' t' = Closed g.cpu g'.cpu g.gpu g'.gpu g t r g' t'

abbrev pub GpuClosed : Globals → List RuntimeCall → HrxStatus → Globals → List RuntimeCall → Type 0
GpuClosed g t r g' t' = Closed g.gpu g'.gpu g.cpu g'.cpu g t r g' t'

module _ (e : Env RuntimeCall) where
  abbrev Devices :
      List ℕ → Globals → List RuntimeCall → Unit {0} → Globals → List RuntimeCall → Type 0
  Devices ds g t _ g' t' = (g' ≡ g) × (t' ≡ devices_released ds t)

  release_devices_lem :
      (ds : List ℕ) (g : Globals) (t : List RuntimeCall)
      → Ensures (Devices ds g t) (release_devices ds e g t)
  unfolding release_devices
  release_devices_lem [] g t = (refl, refl)
  release_devices_lem (d ∷ ds) g t = release_devices_lem ds g (hrx_device_release d ∷ t)

  module _ (doc : Documented e) (g : Globals) (t : List RuntimeCall) (counted : IsCounted g) where
    close_cpu-CpuClosed :
        g.cpu.initialized ≡ true
        → Ensures (CpuClosed g t) (close_cpu g.cpu.driver e g (devices_released g.cpu.devices t))
    unfolding release_shared_state
    close_cpu-CpuClosed on = ground arith

    close_gpu-GpuClosed :
        g.gpu.initialized ≡ true
        → Ensures (GpuClosed g t) (close_gpu g.gpu.driver e g (devices_released g.gpu.devices t))
    unfolding release_shared_state
    close_gpu-GpuClosed on = ground arith

    hrx_cpu_shutdown-CpuClosed : Ensures (CpuClosed g t) (hrx_cpu_shutdown e g t)
    unfolding hrx_cpu_shutdown hrx_make_status
    hrx_cpu_shutdown-CpuClosed = elim (Bool-cases g.cpu.initialized) [
      | inl on ↦
          let closed =
            bind (Devices g.cpu.devices g t) (CpuClosed g t) (release_devices g.cpu.devices e g t)
              (λ _ h u. close_cpu g.cpu.driver e h u) (release_devices_lem g.cpu.devices g t)
              (λ _ h u same. rw (same.0, same.1) (close_cpu-CpuClosed on)) in
          simp on closed
      | inr off ↦ ground (arith, doc.rich t)
    ]

    hrx_gpu_shutdown-GpuClosed : Ensures (GpuClosed g t) (hrx_gpu_shutdown e g t)
    unfolding hrx_gpu_shutdown hrx_make_status
    hrx_gpu_shutdown-GpuClosed = elim (Bool-cases g.gpu.initialized) [
      | inl on ↦
          let closed =
            bind (Devices g.gpu.devices g t) (GpuClosed g t) (release_devices g.gpu.devices e g t)
              (λ _ h u. close_gpu g.gpu.driver e h u) (release_devices_lem g.gpu.devices g t)
              (λ _ h u same. rw (same.0, same.1) (close_gpu-GpuClosed on)) in
          simp on closed
      | inr off ↦ ground (arith, doc.rich t)
    ]

    -- Shutting an accelerator down, the CPU or the GPU, does not panic. It returns success exactly when
    -- the accelerator was initialised. It then has released each of its devices once, in their order,
    -- and the driver, if it had one, and with the last reference the proactor pool and the VM instance,
    -- where they are not NULL, and has made no other call; the accelerator is as at load, the other one as
    -- it was, and the reference count is one less. With an error nothing is called or changed. Payload
    -- allocations do not fail, a successful IREE call makes an object, and the counts are right before.
    pub shutdown-Closed :
        Ensures (CpuClosed g t) (hrx_cpu_shutdown e g t)
        × Ensures (GpuClosed g t) (hrx_gpu_shutdown e g t)
    shutdown-Closed = (hrx_cpu_shutdown-CpuClosed, hrx_gpu_shutdown-GpuClosed)
