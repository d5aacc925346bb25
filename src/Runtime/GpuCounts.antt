-- ===== src/Runtime/GpuCounts.antt =====
-- crates/hrx-libhrx/src/runtime.rs: lemmas on the GPU accelerator's loop and the runtime's counts.
use hrx_system_rs.Base.{
  ℕ, ◌+◌, ◌≤◌, ◌≡◌, ◌≢◌, inl, inr, Bool-cases, refl, false, none, some, List, [], ◌∷◌, ◌++◌, length,
  length-append, ltb, ◌==◌, arith,
}
use hrx_system_rs.Ffi.{Env, HrxStatus, IreeStatus, emit}
use hrx_system_rs.Ffi.Ensures.{Ensures, bind}
use hrx_system_rs.Runtime.{
  Globals, DeviceInfo, RuntimeCall, R, accelerator_gpu, create_device_by_ordinal,
  hal_device_release,
}
use hrx_system_rs.Runtime.Shared.{create_single_device_group}
use hrx_system_rs.Runtime.Cpu.{release_devices}
use hrx_system_rs.Runtime.Gpu.{
  GpuDevices, ready, stopped, OneDevice, one, no_device, abandon, grouped, finish, opened,
  create_one, next_round, create_devices, installed, or_release,
}
use hrx_system_rs.Runtime.Counts.{
  Documented, Shares, SameRest, IsCounted, Atomic, Grouped, running, release_shared_state-Shares,
  group-Grouped, new_device-same,
}
use hrx_system_rs.Runtime.CpuCounts.{release_devices-same}

-- The shared state has given up one reference, and the accelerators are as they were.
abbrev GaveUp : ℕ → Globals → Globals → Type 0
GaveUp n g g' = SameRest g g' × Shares n g'.shared

abbrev RoundOf : ℕ → Globals → OneDevice → Globals → List RuntimeCall → Type 0
RoundOf n g (one d) g' t = g' ≡ g
RoundOf n g (no_device p) g' t = GaveUp n g g'

abbrev pub DevicesOf : ℕ → ℕ → Globals → GpuDevices → Globals → List RuntimeCall → Type 0
DevicesOf count n g (ready ds created) g' t = (g' ≡ g) × (length ds ≡ created) × (created ≤ count)
DevicesOf count n g (stopped p) g' t = GaveUp n g g'

module _ (e : Env RuntimeCall) (doc : Documented e) (n : ℕ) where
  abandon-GaveUp :
      (ds : List ℕ) (infos driver : ℕ) (g : Globals) (t : List RuntimeCall)
      → Shares (n + 1) g.shared
      → Ensures (λ _ g' _. GaveUp n g g') (abandon ds infos driver e g t)
  abandon-GaveUp ds infos driver g t h =
      bind (λ _ g' _. g' ≡ g) (λ _ g' _. GaveUp n g g') (release_devices ds e g t) _
        (release_devices-same e ds g t)
        (λ _ g' u same. rw same (release_shared_state-Shares e doc n g _ h))

  -- The round's device is the group that was made, until the handle is built around it.
  abbrev Keeping : Globals → OneDevice → Globals → List RuntimeCall → Type 0
  Keeping g (one group) g' t = (g' ≡ g) × (group ≢ 0)
  Keeping g (no_device p) g' t = GaveUp n g g'

  grouped-Keeping :
      (ds : List ℕ) (infos driver hal_device : ℕ) (r : IreeStatus × ℕ) (g : Globals)
      (t : List RuntimeCall)
      → Shares (n + 1) g.shared
      → Grouped r
      → Ensures (Keeping g) (grouped ds infos driver hal_device r e g t)
  grouped-Keeping ds infos driver hal_device (some c, group) g t h made =
      ground (arith, abandon-GaveUp ds infos driver g (hal_device_release hal_device ∷ t) h)
  grouped-Keeping ds infos driver hal_device (none, group) g t h made = (refl, made)

  finish-RoundOf :
      (created hal_device : ℕ) (d : OneDevice) (g g' : Globals) (t : List RuntimeCall)
      → hal_device ≢ 0
      → Keeping g d g' t
      → Ensures (RoundOf n g) (finish created hal_device d e g' t)
  finish-RoundOf created hal_device (no_device p) g g' t h k = k
  finish-RoundOf created hal_device (one group) g g' t h k =
      ground (arith, new_device-same e doc accelerator_gpu created hal_device group g' t h k.1)

  opened-RoundOf :
      (s : IreeStatus) (created hal_device infos driver : ℕ) (ds : List ℕ) (g : Globals)
      (t : List RuntimeCall)
      → Shares (n + 1) g.shared
      → (s ≡ none → hal_device ≢ 0)
      → Ensures (RoundOf n g) (opened created ds infos driver hal_device s e g t)
  opened-RoundOf (some c) created hal_device infos driver ds g t h k =
      ground (arith, abandon-GaveUp ds infos driver g t h)
  opened-RoundOf none created hal_device infos driver ds g t h k =
      bind (λ r h' _. (h' ≡ g) × Grouped r) (RoundOf n g)
        (create_single_device_group hal_device e g t) _ (group-Grouped e doc hal_device g t)
        (λ r h' u p. rw p.0 (
          bind (Keeping g) (RoundOf n g) (grouped ds infos driver hal_device r e g u) _
            (grouped-Keeping ds infos driver hal_device r g u h p.1)
            (λ d g' v q. finish-RoundOf created hal_device d g g' v (k refl) q)))

  create_one-RoundOf :
      (created index infos driver pool : ℕ) (ds : List ℕ) (g : Globals) (t : List RuntimeCall)
      → Shares (n + 1) g.shared
      → Ensures (RoundOf n g) (create_one created index ds infos driver pool e g t)
  unfolding create_one
  create_one-RoundOf created index infos driver pool ds g t h =
      let c = create_device_by_ordinal driver index pool in
      opened-RoundOf (e.reply (c ∷ t)).status created (e.reply (c ∷ t)).ptr infos driver ds g
        (c ∷ t) h (doc.ordinal driver index pool t)

  next_round-DevicesOf :
      (count : ℕ) (rest : ℕ → R GpuDevices) (d : OneDevice) (g g' : Globals) (t : List RuntimeCall)
      → ((dev : ℕ) → Ensures (DevicesOf count n g) (rest dev e g t))
      → RoundOf n g d g' t
      → Ensures (DevicesOf count n g) (next_round rest d e g' t)
  next_round-DevicesOf count rest (one d) g g' t k p = rw p (k d)
  next_round-DevicesOf count rest (no_device s) g g' t k p = p

  pub create_devices-DevicesOf :
      (count infos driver pool : ℕ) (xs : List DeviceInfo) (index created : ℕ) (ds : List ℕ)
      (g : Globals) (t : List RuntimeCall)
      → Shares (n + 1) g.shared
      → length ds ≡ created
      → created ≤ count
      → Ensures
          (DevicesOf count n g)
          (create_devices count infos driver pool xs index created ds e g t)
  unfolding create_devices
  create_devices-DevicesOf count infos driver pool [] index created ds g t h k l = (refl, k, l)
  create_devices-DevicesOf count infos driver pool (x ∷ xs) index created ds g t h k l =
      elim (Bool-cases (ltb created count)) [
        | inr full ↦ ground arith
        | inl room ↦ elim (Bool-cases (x.path_size == 0)) [
          | inl pseudo ↦
              let skipped =
                create_devices-DevicesOf count infos driver pool xs (index + 1) created ds g t h k
                  l in
              simp (room, pseudo) skipped
          | inr physical ↦
              let round =
                bind (RoundOf n g) (DevicesOf count n g)
                  (create_one created index ds infos driver pool e g t) _
                  (create_one-RoundOf created index infos driver pool ds g t h)
                  (λ d g' u p.
                    next_round-DevicesOf count _ d g g' u
                      (λ dev.
                        create_devices-DevicesOf count infos driver pool xs (index + 1)
                          (created + 1) (ds ++ dev ∷ []) g u h
                          (omega (arith, length-append ds (dev ∷ []))) (ground arith))
                      p) in
              simp (room, physical) round
        ]
      ]

module _ (e : Env RuntimeCall) (doc : Documented e) (g g0 : Globals) where
  -- The initialisation has taken its reference on the shared state and installed nothing yet.
  pub record Started : Type 0 where
    pub before : IsCounted g
    pub idle : g.gpu.initialized ≡ false
    pub same : SameRest g g0
    pub shares : Shares (running g + 1) g0.shared

  pub installed-Atomic :
      (count infos driver : ℕ) (d : GpuDevices) (g' : Globals) (t : List RuntimeCall)
      → Started
      → count ≤ 64
      → DevicesOf count (running g) g0 d g' t
      → Ensures (Atomic g) (installed infos driver d e g' t)
  installed-Atomic count infos driver (stopped none) g' t v l p = ground arith
  installed-Atomic count infos driver (stopped (some s)) g' t v l p = ground arith
  installed-Atomic count infos driver (ready ds created) g' t v l p = ground arith

  pub or_release-Atomic :
      (s : IreeStatus) (c : RuntimeCall) (rest : R HrxStatus) (t : List RuntimeCall)
      → Started
      → Ensures (Atomic g) (rest e g0 t)
      → Ensures (Atomic g) (or_release s (emit c) rest e g0 t)
  or_release-Atomic none c rest t v k = k
  or_release-Atomic (some s) c rest t v k =
      ground (arith, release_shared_state-Shares e doc (running g) g0 (c ∷ t) v.shares)
