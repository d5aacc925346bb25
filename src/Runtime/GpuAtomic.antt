-- ===== src/Runtime/GpuAtomic.antt =====
-- crates/hrx-libhrx/src/runtime.rs: lemmas on the GPU accelerator's initialisation and shutdown.
use hrx_system_rs.Base.{
  ℕ, ◌≤◌, ◌≡◌, inl, inr, Bool-cases, refl, true, false, none, some, List, [], ◌∷◌, length, ◌==◌,
  arith, String,
}
use Prim.Native.Nat.{min}
use hrx_system_rs.Ffi.{Env, HrxStatus, IreeStatus, IreeStatus, ◌>>=◌, call, pure}
use hrx_system_rs.Ffi.Ensures.{Ensures, bind}
use hrx_system_rs.Status.{HrxStatusCode, check_hrx, fail}
use hrx_system_rs.Runtime.{
  Globals, DeviceInfo, RuntimeCall, R, amdgpu_driver_module_register, query_available_devices,
  registry_try_create, driver_release, free_infos, hrx_max_devices,
}
use hrx_system_rs.Runtime.Shared.{ensure_shared_state}
use hrx_system_rs.Runtime.Cpu.{release_devices}
use hrx_system_rs.Runtime.Gpu.{
  physical_count, create_devices, installed, no_devices, or_release, registered, enumerate,
  close_gpu, hrx_gpu_initialize, hrx_gpu_shutdown,
}
use hrx_system_rs.Runtime.Counts.{
  Documented, Ensured, IsCounted, Atomic, running, ensure_shared_state-Ensured,
  release_shared_state-Shares,
}
use hrx_system_rs.Runtime.CpuCounts.{release_devices-same}
use hrx_system_rs.Runtime.GpuCounts.{
  Started, DevicesOf, create_devices-DevicesOf, installed-Atomic, or_release-Atomic,
}

min-bounded : (a b : ℕ) → min a b ≤ b
min-bounded a b = omega arith

module _ (e : Env RuntimeCall) (doc : Documented e) (g g0 : Globals) (v : Started e doc g g0) where
  no_devices-Atomic :
      (infos driver : ℕ) (code : HrxStatusCode) (message : String) (t : List RuntimeCall)
      → Ensures (Atomic g) (no_devices infos driver (fail code message) e g0 t)
  no_devices-Atomic infos driver code message t = ground (
    arith,
    release_shared_state-Shares e doc (running g) g0 (driver_release driver ∷ free_infos infos ∷ t)
        v.shares,
  )

  devices-Atomic :
      (reported : List RuntimeCall → List DeviceInfo) (infos driver : ℕ) (xs : List DeviceInfo)
      (t : List RuntimeCall)
      → Ensures (Atomic g) (
          (create_devices
                (min (physical_count xs) hrx_max_devices)
                infos
                driver
                g0.shared.proactor_pool
                xs
                0
                0
                []
              >>= installed infos driver)
            e g0 t)
  devices-Atomic reported infos driver xs t =
      let n = min (physical_count xs) hrx_max_devices in
      bind (DevicesOf n (running g) g0) (Atomic g)
        (create_devices n infos driver g0.shared.proactor_pool xs 0 0 [] e g0 t) _
        (create_devices-DevicesOf e doc (running g) n infos driver g0.shared.proactor_pool xs 0 0 []
          g0 t v.shares refl (omega arith))
        (λ d g' u p.
          installed-Atomic e doc g g0 n infos driver d g' u v (min-bounded (physical_count xs) 64)
            p)

  enumerate-Atomic :
      (reported : List RuntimeCall → List DeviceInfo) (driver : ℕ) (t : List RuntimeCall)
      → Ensures (Atomic g) (enumerate reported driver e g0 t)
  enumerate-Atomic reported driver t =
      let q = query_available_devices driver in
      let r = e.reply (q ∷ t) in
      let xs = reported (q ∷ t) in
      or_release-Atomic e doc g g0 r.status (driver_release driver) _ (q ∷ t) v
        (elim (Bool-cases (length xs == 0)) [
          | inl empty ↦
              let none_found =
                no_devices-Atomic r.ptr driver HrxStatusCode.unavailable "no GPU devices found"
                  (q ∷ t) in
              simp empty none_found
          | inr found ↦ elim (Bool-cases (physical_count xs == 0)) [
            | inl empty ↦
                let none_found =
                  no_devices-Atomic r.ptr driver HrxStatusCode.unavailable
                    "no physical GPU devices found" (q ∷ t) in
                simp (found, empty) none_found
            | inr ok ↦
                let made = devices-Atomic reported r.ptr driver xs (q ∷ t) in simp (found, ok) made
          ]
        ])

  registered-Atomic :
      (s : IreeStatus) (rest : R HrxStatus) (t : List RuntimeCall)
      → Ensures (Atomic g) (rest e g0 t)
      → Ensures (Atomic g) (registered s rest e g0 t)
  registered-Atomic none rest t k = k
  registered-Atomic (some c) rest t k =
      ground (arith, release_shared_state-Shares e doc (running g) g0 t v.shares)

  driverless-Atomic :
      (s : IreeStatus) (rest : R HrxStatus) (t : List RuntimeCall)
      → Ensures (Atomic g) (rest e g0 t)
      → Ensures (Atomic g) (or_release s (pure tt) rest e g0 t)
  driverless-Atomic none rest t k = k
  driverless-Atomic (some c) rest t k =
      ground (arith, release_shared_state-Shares e doc (running g) g0 t v.shares)

  loaded-Atomic :
      (reported : List RuntimeCall → List DeviceInfo) (t : List RuntimeCall)
      → Ensures (Atomic g) (
          (call registry_try_create >>= λ d.
          or_release d.status (pure tt) (enumerate reported d.ptr))
            e g0 t)
  loaded-Atomic reported t =
      let u = registry_try_create ∷ t in
      driverless-Atomic (e.reply u).status _ u (enumerate-Atomic reported (e.reply u).ptr u)

module _ (e : Env RuntimeCall) (doc : Documented e)
    (reported : List RuntimeCall → List DeviceInfo) where
  started-Atomic :
      (p : HrxStatus) (g g' : Globals) (t : List RuntimeCall)
      → IsCounted g
      → g.gpu.initialized ≡ false
      → Ensured (running g) g p g' t
      → Ensures (Atomic g) (
          check_hrx p
            (call amdgpu_driver_module_register >>= λ m. registered m.status (
              call registry_try_create >>= λ d.
              or_release d.status (pure tt) (enumerate reported d.ptr)))
            e
            g'
            t)
  started-Atomic (some p) g g' t v idle s = ground arith
  started-Atomic none g g' t v idle s =
      let u = amdgpu_driver_module_register ∷ t in
      let started : Started e doc g g' = record {
        before = v;
        idle = idle;
        same = s.0;
        shares = s.1;
      } in
      registered-Atomic e doc g g' started (e.reply u).status _ u
        (loaded-Atomic e doc g g' started reported u)

  -- Initialising the GPU accelerator keeps the runtime's counts, and when it reports an error, at
  -- whichever device or call, both accelerators are as they were. It does not panic. Payload
  -- allocations do not fail and a successful call of IREE makes an object.
  pub hrx_gpu_initialize-Atomic :
      (g : Globals) (t : List RuntimeCall)
      → IsCounted g
      → Ensures (Atomic g) (hrx_gpu_initialize reported e g t)
  unfolding hrx_gpu_initialize
  hrx_gpu_initialize-Atomic g t v = elim (Bool-cases g.gpu.initialized) [
    | inl on ↦ ground arith
    | inr off ↦
        let started =
          bind (Ensured (running g) g) (Atomic g) (ensure_shared_state e g t) _
            (ensure_shared_state-Ensured e doc (running g) g t v.shares)
            (λ p g' u s. started-Atomic p g g' u v off s) in
        simp off started
  ]

module _ (e : Env RuntimeCall) (doc : Documented e) where
  close_gpu-Atomic :
      (g : Globals) (t : List RuntimeCall)
      → IsCounted g
      → g.gpu.initialized ≡ true
      → Ensures (Atomic g) (close_gpu g.gpu.driver e g t)
  close_gpu-Atomic g t v on =
      let g' : Globals = record g {
        gpu = record { devices = []; driver = 0; device_count = 0; initialized = false };
      } in
      ground (
        arith,
        release_shared_state-Shares e doc (running g') g' t,
        release_shared_state-Shares e doc (running g') g' (driver_release g.gpu.driver ∷ t),
      )

  -- Shutting the GPU accelerator down keeps the runtime's counts, and when it reports an error
  -- both accelerators are as they were. It does not panic. Payload allocations do not fail and a
  -- successful call of IREE makes an object.
  pub hrx_gpu_shutdown-Atomic :
      (g : Globals) (t : List RuntimeCall)
      → IsCounted g
      → Ensures (Atomic g) (hrx_gpu_shutdown e g t)
  unfolding hrx_gpu_shutdown
  hrx_gpu_shutdown-Atomic g t v = elim (Bool-cases g.gpu.initialized) [
    | inl on ↦
        let closed =
          bind (λ _ h _. h ≡ g) (Atomic g) (release_devices g.gpu.devices e g t)
            (λ _ h u. close_gpu g.gpu.driver e h u) (release_devices-same e g.gpu.devices g t)
            (λ _ h u same. rw same (close_gpu-Atomic g u v on)) in
        simp on closed
    | inr off ↦ ground arith
  ]
