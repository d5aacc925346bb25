-- ===== src/Runtime/CpuCounts.antt =====
-- crates/hrx-libhrx/src/runtime.rs: lemmas on the CPU accelerator and the runtime's counts.
use hrx_system_rs.Base.{
  ℕ, zero, suc, ◌+◌, ◌≡◌, ◌≢◌, inl, inr, Bool-cases, refl, true, false, none, some, List, [], ◌∷◌,
  arith,
}
use hrx_system_rs.Ffi.{Env, HrxStatus, IreeStatus, ◌>>=◌}
use hrx_system_rs.Ffi.Ensures.{Ensures, bind}
use hrx_system_rs.Status.{check_hrx}
use hrx_system_rs.Runtime.{
  Globals, RuntimeCall, accelerator_cpu, driver_release, hal_device_release,
}
use hrx_system_rs.Runtime.Shared.{ensure_shared_state, create_single_device_group}
use hrx_system_rs.Runtime.Cpu.{
  TaskDevice, made, refused, grouped, release_loaders, create_local_task_device, with_device,
  release_devices, close_cpu, hrx_cpu_initialize, hrx_cpu_shutdown,
}
use hrx_system_rs.Runtime.Counts.{
  Documented, Ensured, Shares, SameRest, IsCounted, Atomic, running, ensure_shared_state-Ensured,
  release_shared_state-Shares, Grouped, group-Grouped, new_device-same,
}

module _ (e : Env RuntimeCall) where
  pub release_devices-same :
      (ds : List ℕ) (g : Globals) (t : List RuntimeCall)
      → Ensures (λ _ g' _. g' ≡ g) (release_devices ds e g t)
  unfolding release_devices
  release_devices-same [] g t = refl
  release_devices-same (d ∷ ds) g t = release_devices-same ds g _

  release_loaders-same :
      (n i : ℕ) (g : Globals) (t : List RuntimeCall)
      → Ensures (λ _ g' _. g' ≡ g) (release_loaders n i e g t)
  unfolding release_loaders
  release_loaders-same zero i g t = refl
  release_loaders-same (suc n) i g t = release_loaders-same n (i + 1) g _

module _ (e : Env RuntimeCall) (doc : Documented e) where
  abbrev Created : TaskDevice → Type 0
  Created (made driver hal_device) = hal_device ≢ 0
  Created (refused p) = Unit {0}

  create_local_task_device-Created :
      (n : ℕ) (g : Globals) (t : List RuntimeCall)
      → Ensures (λ d g' _. (g' ≡ g) × Created d) (create_local_task_device n e g t)
  unfolding create_local_task_device
  create_local_task_device-Created n g t = grind (arith, release_loaders-same, doc.device)

  grouped-Atomic :
      (driver hal_device : ℕ) (r : IreeStatus × ℕ) (g g' : Globals) (t : List RuntimeCall)
      → IsCounted g
      → g.cpu.initialized ≡ false
      → SameRest g g'
      → Shares (running g + 1) g'.shared
      → hal_device ≢ 0
      → Grouped r
      → Ensures (Atomic g) (grouped driver hal_device r e g' t)
  grouped-Atomic driver hal_device (none, group) g g' t v idle same shares h made_group =
      ground (arith, new_device-same e doc accelerator_cpu 0 hal_device group g' t)
  grouped-Atomic driver hal_device (some c, group) g g' t v idle same shares h made_group = ground (
    arith,
    release_shared_state-Shares e doc (running g) g'
        (driver_release driver ∷ hal_device_release hal_device ∷ t),
  )

  with_device-Atomic :
      (d : TaskDevice) (g g' : Globals) (t : List RuntimeCall)
      → IsCounted g
      → g.cpu.initialized ≡ false
      → SameRest g g'
      → Shares (running g + 1) g'.shared
      → Created d
      → Ensures (Atomic g) (with_device d e g' t)
  with_device-Atomic (refused none) g g' t v idle same shares c =
      ground (arith, release_shared_state-Shares e doc (running g) g' t shares)
  with_device-Atomic (refused (some p)) g g' t v idle same shares c =
      ground (arith, release_shared_state-Shares e doc (running g) g' t shares)
  with_device-Atomic (made driver hal_device) g g' t v idle same shares c =
      bind (λ r h _. (h ≡ g') × Grouped r) (Atomic g) (create_single_device_group hal_device e g' t)
        _ (group-Grouped e doc hal_device g' t)
        (λ r h u p.
          grouped-Atomic driver hal_device r g h u v idle (ground arith) (ground arith) c p.1)

  created-Atomic :
      (p : HrxStatus) (g g' : Globals) (t : List RuntimeCall)
      → IsCounted g
      → g.cpu.initialized ≡ false
      → Ensured (running g) g p g' t
      → Ensures (Atomic g) (check_hrx p (create_local_task_device 4 >>= with_device) e g' t)
  created-Atomic (some p) g g' t v idle s = ground arith
  created-Atomic none g g' t v idle s =
      bind (λ d h _. (h ≡ g') × Created d) (Atomic g) (create_local_task_device 4 e g' t) _
        (create_local_task_device-Created 4 g' t)
        (λ d h u p. with_device-Atomic d g h u v idle (ground arith) (ground arith) p.1)

  -- Initialising the CPU accelerator keeps the runtime's counts, and when it reports an error
  -- both accelerators are as they were. It does not panic. Payload allocations do not fail and a
  -- successful call of IREE makes an object.
  pub hrx_cpu_initialize-Atomic :
      (g : Globals) (t : List RuntimeCall)
      → IsCounted g
      → Ensures (Atomic g) (hrx_cpu_initialize e g t)
  unfolding hrx_cpu_initialize
  hrx_cpu_initialize-Atomic g t v = elim (Bool-cases g.cpu.initialized) [
    | inl on ↦ ground arith
    | inr off ↦
        let started =
          bind (Ensured (running g) g) (Atomic g) (ensure_shared_state e g t) _
            (ensure_shared_state-Ensured e doc (running g) g t v.shares)
            (λ p g' u s. created-Atomic p g g' u v off s) in
        simp off started
  ]

  close_cpu-Atomic :
      (g : Globals) (t : List RuntimeCall)
      → IsCounted g
      → g.cpu.initialized ≡ true
      → Ensures (Atomic g) (close_cpu g.cpu.driver e g t)
  close_cpu-Atomic g t v on =
      let g' : Globals = record g {
        cpu = record { devices = []; driver = 0; device_count = 0; initialized = false };
      } in
      ground (
        arith,
        release_shared_state-Shares e doc (running g') g' t,
        release_shared_state-Shares e doc (running g') g' (driver_release g.cpu.driver ∷ t),
      )

  -- Shutting the CPU accelerator down keeps the runtime's counts, and when it reports an error
  -- both accelerators are as they were. It does not panic. Payload allocations do not fail and a
  -- successful call of IREE makes an object.
  pub hrx_cpu_shutdown-Atomic :
      (g : Globals) (t : List RuntimeCall)
      → IsCounted g
      → Ensures (Atomic g) (hrx_cpu_shutdown e g t)
  unfolding hrx_cpu_shutdown
  hrx_cpu_shutdown-Atomic g t v = elim (Bool-cases g.cpu.initialized) [
    | inl on ↦
        let closed =
          bind (λ _ h _. h ≡ g) (Atomic g) (release_devices g.cpu.devices e g t)
            (λ _ h u. close_cpu g.cpu.driver e h u) (release_devices-same e g.cpu.devices g t)
            (λ _ h u same. rw same (close_cpu-Atomic g u v on)) in
        simp on closed
    | inr off ↦ ground arith
  ]
