-- ===== src/Buffer/Ownership.antt =====
-- A buffer's mapping, its HAL buffer, its pool and its device, over any use of its handle that keeps
-- to its references.
use hrx_system_rs.Base.{
  ℕ, zero, suc, ◌≡◌, ◌≢◌, ◌∙◌, sym, ap, Option, Option-cases, inl, inr, none, some, List, [], ◌∷◌,
  ◌==◌, if◌then◌else◌, arith,
}
use hrx_system_rs.Ffi.{Env, Run, done, fault}
use hrx_system_rs.Ffi.Ensures.{Ensures, bind}
use hrx_system_rs.Buffer.{
  BufferCall, HrxBufferS, Arc, hrx_buffer_map, hrx_buffer_unmap, hrx_buffer_get_device_ptr,
  hrx_buffer_get_size,
}
use hrx_system_rs.Buffer.Transfer.{hrx_synchronous_h2d, hrx_synchronous_d2h}
use hrx_system_rs.Buffer.Memory.{
  AllocatorHandles, new_buffer, hrx_allocator_virtual_memory_map,
  hrx_allocator_virtual_memory_unmap, hrx_allocator_virtual_memory_protect,
}
use hrx_system_rs.Buffer.Client.{
  BufferOp, retain, release, unmap, map, get_device_ptr, get_size, h2d, d2h, memory_release,
  memory_map, memory_unmap, memory_protect, step, run, after, references,
}
use hrx_system_rs.Buffer.Ledger.{
  Holds, release-Holds, retain-Holds, map-Holds, unmap-Holds, get_device_ptr-Holds, get_size-Holds,
  h2d-Holds, d2h-Holds, memory_map-Holds, memory_unmap-Holds, memory_protect-Holds,
  memory_release-Holds,
}

module _ (hal_device : ℕ → ℕ) (x : AllocatorHandles) (e : Env BufferCall) (b : HrxBufferS) where
  kept :
      {A : Type 0} (n k : ℕ) (r : Run BufferCall Arc A)
      → (if suc n == 0 then none else some (suc n)) ≡ some k
      → Ensures (λ _ a t. Holds e b (suc n) a t) r
      → Ensures (λ _ a t. Holds e b k a t) (elim r [ done y a t ↦ done tt a t | fault ↦ fault ])
  kept n k (done y a t) eq h = ground arith
  kept n k fault eq h = h

  step-Holds :
      (c : BufferOp) (n k : ℕ) (a : Arc) (t : List BufferCall)
      → Holds e b n a t
      → after c n ≡ some k
      → Ensures (λ _ a t. Holds e b k a t) (step hal_device x c e a t)
  unfolding step
  step-Holds retain zero k a t h eq = ground arith
  step-Holds retain (suc n) k a t h eq = ground (arith, retain-Holds hal_device x e b n a t h)
  step-Holds release zero k a t h eq = ground arith
  step-Holds release (suc n) k a t h eq = ground (arith, release-Holds hal_device x e b n a t h)
  step-Holds (unmap p) zero k a t h eq = ground arith
  step-Holds (unmap p) (suc n) k a t h eq =
      kept n k (hrx_buffer_unmap p e a t) eq (unmap-Holds hal_device x e b p n a t h)
  step-Holds (map p f i m q) zero k a t h eq = ground arith
  step-Holds (map p f i m q) (suc n) k a t h eq =
      kept n k (hrx_buffer_map p f i m q e a t) eq (map-Holds hal_device x e b p f i m q n a t h)
  step-Holds (get_device_ptr p q) zero k a t h eq = ground arith
  step-Holds (get_device_ptr p q) (suc n) k a t h eq =
      kept n k (hrx_buffer_get_device_ptr p q e a t) eq
        (get_device_ptr-Holds hal_device x e b p q n a t h)
  step-Holds (get_size p q) zero k a t h eq = ground arith
  step-Holds (get_size p q) (suc n) k a t h eq =
      kept n k (hrx_buffer_get_size p q e a t) eq (get_size-Holds hal_device x e b p q n a t h)
  step-Holds (h2d d p q i m) zero k a t h eq = ground arith
  step-Holds (h2d d p q i m) (suc n) k a t h eq =
      kept n k (hrx_synchronous_h2d hal_device d p q i m e a t) eq
        (h2d-Holds hal_device x e b d p q i m n a t h)
  step-Holds (d2h d p i q m) zero k a t h eq = ground arith
  step-Holds (d2h d p i q m) (suc n) k a t h eq =
      kept n k (hrx_synchronous_d2h hal_device d p i q m e a t) eq
        (d2h-Holds hal_device x e b d p i q m n a t h)
  step-Holds (memory_map y p i q j m) zero k a t h eq = ground arith
  step-Holds (memory_map y p i q j m) (suc n) k a t h eq =
      kept n k (hrx_allocator_virtual_memory_map x y p i q j m e a t) eq
        (memory_map-Holds hal_device x e b y p i q j m n a t h)
  step-Holds (memory_unmap y p i m) zero k a t h eq = ground arith
  step-Holds (memory_unmap y p i m) (suc n) k a t h eq =
      kept n k (hrx_allocator_virtual_memory_unmap x y p i m e a t) eq
        (memory_unmap-Holds hal_device x e b y p i m n a t h)
  step-Holds (memory_protect y p i m q) zero k a t h eq = ground arith
  step-Holds (memory_protect y p i m q) (suc n) k a t h eq =
      kept n k (hrx_allocator_virtual_memory_protect x y p i m q e a t) eq
        (memory_protect-Holds hal_device x e b y p i m q n a t h)
  step-Holds (memory_release y p) n k a t h eq =
      ground (arith, memory_release-Holds hal_device x e b y p n k a t h eq)

  references-none : (cs : List BufferOp) (n : ℕ) → references cs none ≢ some n
  references-none [] n eq = ground arith
  references-none (c ∷ cs) n eq = ground arith

  run-Holds :
      (cs : List BufferOp) (n k : ℕ) (a : Arc) (t : List BufferCall)
      → Holds e b n a t
      → references cs (some n) ≡ some k
      → Ensures (λ _ a t. Holds e b k a t) (run hal_device x cs e a t)
  unfolding run
  run-Holds [] n k a t h eq = ground arith
  run-Holds (c ∷ cs) n k a t h eq = elim (Option-cases (after c n)) [
    | inl over ↦ ground (arith, sym (ap (references cs) over) ∙ eq)
    | inr (m, left) ↦
        bind (λ _ a t. Holds e b m a t) (λ _ a t. Holds e b k a t) (step hal_device x c e a t) _
          (step-Holds c n m a t h left)
          (λ _ a' u h'. run-Holds cs m k a' u h' (sym (ap (references cs) left) ∙ eq))
  ]

-- Any sequence of calls on the handle of a new buffer that keeps to its references, by which `n` are
-- left, ends without a panic. While there are references, the only mapping of the buffer is the one
-- that it records, and nothing of the buffer has been given back; with the last reference it is
-- unmapped, and its HAL buffer, its pool and its device reference are given back exactly once. No
-- mapping is undone twice.
pub run-new_buffer-Holds :
    (hal_device : ℕ → ℕ) (x : AllocatorHandles) (e : Env BufferCall) (hal_buffer : ℕ)
    (hal_pool : Option ℕ) (device mem_type size : ℕ) (cs : List BufferOp) (n : ℕ)
    → references cs (some 1) ≡ some n
    → Ensures
        (λ _ a t. Holds e (new_buffer hal_buffer hal_pool device mem_type size) n a t)
        (run hal_device x cs e
          (record { strong = 1; inner = new_buffer hal_buffer hal_pool device mem_type size })
          [])
run-new_buffer-Holds hal_device x e hal_buffer hal_pool device mem_type size cs n eq =
    run-Holds hal_device x e (new_buffer hal_buffer hal_pool device mem_type size) cs 1 n _ []
      (ground arith) eq
