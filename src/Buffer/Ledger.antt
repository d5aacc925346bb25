-- ===== src/Buffer/Ledger.antt =====
-- crates/hrx-libhrx/src/buffer.rs: the ledger of what a buffer's handle holds, over any use of it that keeps
-- to its references.
use hrx_system_rs.Base.{
  ℕ, suc, ◌+◌, ◌≡◌, Option, none, some, List, [], ◌∷◌, ◌==◌, if◌then◌else◌, arith,
}
use hrx_system_rs.Ffi.{Env, Reply, IreeStatus}
use hrx_system_rs.Ffi.Ensures.{Ensures}
use hrx_system_rs.Ffi.Kinds.{take_out}
use hrx_system_rs.Buffer.{
  BufferCall, buffer_map_range, buffer_unmap_range, hal_buffer_release, hal_pool_release,
  device_release, virtual_memory_release, MappedRange, HrxBufferS, Arc, handle_retain,
  handle_release, hrx_buffer_map, hrx_buffer_unmap, hrx_buffer_get_device_ptr, hrx_buffer_get_size,
}
use hrx_system_rs.Buffer.Transfer.{hrx_synchronous_h2d, hrx_synchronous_d2h}
use hrx_system_rs.Buffer.Memory.{
  AllocatorHandles, hrx_allocator_virtual_memory_release, hrx_allocator_virtual_memory_map,
  hrx_allocator_virtual_memory_unmap, hrx_allocator_virtual_memory_protect,
}
use hrx_system_rs.Buffer.Client.{memory_release, after}

abbrev keep : ℕ → Option (List ℕ) → Option (List ℕ)
keep m none = none
keep m (some ms) = some (m ∷ ms)

abbrev keep_if_ok : IreeStatus → ℕ → Option (List ℕ) → Option (List ℕ)
keep_if_ok none m l = keep m l
keep_if_ok (some c) m l = l

abbrev remove : ℕ → Option (List ℕ) → Option (List ℕ)
remove m none = none
remove m (some ms) = take_out m ms

abbrev account : BufferCall → Reply → Option (List ℕ) → Option (List ℕ)
account (buffer_map_range b mode access offset size) r l = keep_if_ok r.status r.num l
account (buffer_unmap_range m) r l = remove m l
account _ r l = l

-- The mappings that a trace leaves: `none` records an unmap of what was not mapped.
abbrev pub live_mappings : Env BufferCall → List BufferCall → Option (List ℕ)
live_mappings e [] = some []
live_mappings e (c ∷ t) = account c (e.reply (c ∷ t)) (live_mappings e t)

-- The HAL buffers, the pools and the device references that a trace gives back.
abbrev pub returns : BufferCall → Option ℕ
returns (hal_buffer_release b) = some b
returns (virtual_memory_release x b) = some b
returns _ = none

abbrev pub pools : BufferCall → Option ℕ
pools (hal_pool_release p) = some p
pools _ = none

abbrev pub devices : BufferCall → Option ℕ
devices (device_release d) = some d
devices _ = none

abbrev prepend : Option ℕ → List ℕ → List ℕ
prepend none xs = xs
prepend (some x) xs = x ∷ xs

abbrev pub collect : (BufferCall → Option ℕ) → List BufferCall → List ℕ
collect f [] = []
collect f (c ∷ t) = prepend (f c) (collect f t)

abbrev mapping_of : Option MappedRange → List ℕ
mapping_of none = []
mapping_of (some m) = m.mapping ∷ []

-- While there are references, what is mapped is what the object records and nothing has been given
-- back; with none left, nothing is mapped and the HAL buffer, the pool and the device of the buffer
-- have been given back once each.
pub record Holds (e : Env BufferCall) (b : HrxBufferS) (n : ℕ) (a : Arc) (t : List BufferCall)
    : Type 0 where
  pub counted : a.strong ≡ n
  pub same_buffer : a.inner.hal_buffer ≡ b.hal_buffer
  pub same_pool : a.inner.hal_pool ≡ b.hal_pool
  pub same_device : a.inner.device ≡ b.device
  pub mappings : live_mappings e t ≡ some (if n == 0 then [] else mapping_of a.inner.map)
  pub buffers : collect returns t ≡ (if n == 0 then b.hal_buffer ∷ [] else [])
  pub pool : collect pools t ≡ (if n == 0 then prepend b.hal_pool [] else [])
  pub device : collect devices t ≡ (if n == 0 then b.device ∷ [] else [])

module _ (hal_device : ℕ → ℕ) (x : AllocatorHandles) (e : Env BufferCall) (b : HrxBufferS) where
  abbrev pub Held : {A : Type 0} → ℕ → A → Arc → List BufferCall → Type 0
  Held n _ a t = Holds e b n a t

  pub release-Holds :
      (n : ℕ) (a : Arc) (t : List BufferCall)
      → Holds e b (suc n) a t
      → Ensures (Held n) (handle_release e a t)
  unfolding handle_release
  release-Holds n a t h = ground arith

  pub retain-Holds :
      (n : ℕ) (a : Arc) (t : List BufferCall)
      → Holds e b (suc n) a t
      → Ensures (Held (suc n + 1)) (handle_retain e a t)
  unfolding handle_retain
  retain-Holds n a t h = ground arith

  pub map-Holds :
      (p f i m q n : ℕ) (a : Arc) (t : List BufferCall)
      → Holds e b (suc n) a t
      → Ensures (Held (suc n)) (hrx_buffer_map p f i m q e a t)
  unfolding hrx_buffer_map
  map-Holds p f i m q n a t h = ground arith

  pub unmap-Holds :
      (p n : ℕ) (a : Arc) (t : List BufferCall)
      → Holds e b (suc n) a t
      → Ensures (Held (suc n)) (hrx_buffer_unmap p e a t)
  unfolding hrx_buffer_unmap
  unmap-Holds p n a t h = ground arith

  pub get_device_ptr-Holds :
      (p q n : ℕ) (a : Arc) (t : List BufferCall)
      → Holds e b (suc n) a t
      → Ensures (Held (suc n)) (hrx_buffer_get_device_ptr p q e a t)
  unfolding hrx_buffer_get_device_ptr
  get_device_ptr-Holds p q n a t h = ground arith

  pub get_size-Holds :
      (p q n : ℕ) (a : Arc) (t : List BufferCall)
      → Holds e b (suc n) a t
      → Ensures (Held (suc n)) (hrx_buffer_get_size p q e a t)
  unfolding hrx_buffer_get_size
  get_size-Holds p q n a t h = ground arith

  pub h2d-Holds :
      (d p q i m n : ℕ) (a : Arc) (t : List BufferCall)
      → Holds e b (suc n) a t
      → Ensures (Held (suc n)) (hrx_synchronous_h2d hal_device d p q i m e a t)
  unfolding hrx_synchronous_h2d
  h2d-Holds d p q i m n a t h = ground arith

  pub d2h-Holds :
      (d p i q m n : ℕ) (a : Arc) (t : List BufferCall)
      → Holds e b (suc n) a t
      → Ensures (Held (suc n)) (hrx_synchronous_d2h hal_device d p i q m e a t)
  unfolding hrx_synchronous_d2h
  d2h-Holds d p i q m n a t h = ground arith

  pub memory_map-Holds :
      (y p i q j m n : ℕ) (a : Arc) (t : List BufferCall)
      → Holds e b (suc n) a t
      → Ensures (Held (suc n)) (hrx_allocator_virtual_memory_map x y p i q j m e a t)
  unfolding hrx_allocator_virtual_memory_map
  memory_map-Holds y p i q j m n a t h = ground arith

  pub memory_unmap-Holds :
      (y p i m n : ℕ) (a : Arc) (t : List BufferCall)
      → Holds e b (suc n) a t
      → Ensures (Held (suc n)) (hrx_allocator_virtual_memory_unmap x y p i m e a t)
  unfolding hrx_allocator_virtual_memory_unmap
  memory_unmap-Holds y p i m n a t h = ground arith

  pub memory_protect-Holds :
      (y p i m q n : ℕ) (a : Arc) (t : List BufferCall)
      → Holds e b (suc n) a t
      → Ensures (Held (suc n)) (hrx_allocator_virtual_memory_protect x y p i m q e a t)
  unfolding hrx_allocator_virtual_memory_protect
  memory_protect-Holds y p i m q n a t h = ground arith

  -- With the last reference virtual memory goes to the allocator; a NULL argument changes nothing.
  pub memory_release-Holds :
      (y p n m : ℕ) (a : Arc) (t : List BufferCall)
      → Holds e b n a t
      → after (memory_release y p) n ≡ some m
      → Ensures (Held m) (hrx_allocator_virtual_memory_release x y p e a t)
  unfolding hrx_allocator_virtual_memory_release
  memory_release-Holds y p n m a t h eq = ground arith
