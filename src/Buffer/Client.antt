-- ===== src/Buffer/Client.antt =====
-- A client of crates/hrx-libhrx/src/buffer.rs: any sequence of calls on one buffer handle that keeps
-- to its references.
use hrx_system_rs.Base.{ℕ, ◌+◌, ◌-◌, ◌||◌, Option, none, some, List, [], ◌∷◌, ◌==◌, if◌then◌else◌}
use hrx_system_rs.Ffi.{pure, ◌>>=◌, ◌>>◌}
use hrx_system_rs.Hal.{is_null}
use hrx_system_rs.Buffer.{
  B, handle_retain, handle_release, hrx_buffer_map, hrx_buffer_unmap, hrx_buffer_get_device_ptr,
  hrx_buffer_get_size,
}
use hrx_system_rs.Buffer.Transfer.{hrx_synchronous_h2d, hrx_synchronous_d2h}
use hrx_system_rs.Buffer.Memory.{
  AllocatorHandles, hrx_allocator_virtual_memory_release, hrx_allocator_virtual_memory_map,
  hrx_allocator_virtual_memory_unmap, hrx_allocator_virtual_memory_protect,
}

pub data BufferOp : Type 0 where
  retain release : BufferOp
  unmap : ℕ → BufferOp
  map : ℕ → ℕ → ℕ → ℕ → ℕ → BufferOp
  get_device_ptr get_size : ℕ → ℕ → BufferOp
  h2d d2h : ℕ → ℕ → ℕ → ℕ → ℕ → BufferOp
  memory_release : ℕ → ℕ → BufferOp
  memory_map : ℕ → ℕ → ℕ → ℕ → ℕ → ℕ → BufferOp
  memory_unmap : ℕ → ℕ → ℕ → ℕ → BufferOp
  memory_protect : ℕ → ℕ → ℕ → ℕ → ℕ → BufferOp

abbrev ignore : {A : Type 0} → B A → B (Unit {0})
ignore m = do a ← m; pure tt

module _ (hal_device : ℕ → ℕ) (a : AllocatorHandles) where
  unfoldable pub step : BufferOp → B (Unit {0})
  step retain = handle_retain
  step release = handle_release
  step (unmap b) = ignore (hrx_buffer_unmap b)
  step (map b f i n p) = ignore (hrx_buffer_map b f i n p)
  step (get_device_ptr b p) = ignore (hrx_buffer_get_device_ptr b p)
  step (get_size b p) = ignore (hrx_buffer_get_size b p)
  step (h2d d p b i n) = ignore (hrx_synchronous_h2d hal_device d p b i n)
  step (d2h d b i p n) = ignore (hrx_synchronous_d2h hal_device d b i p n)
  step (memory_release x b) = ignore (hrx_allocator_virtual_memory_release a x b)
  step (memory_map x b i p j n) = ignore (hrx_allocator_virtual_memory_map a x b i p j n)
  step (memory_unmap x b i n) = ignore (hrx_allocator_virtual_memory_unmap a x b i n)
  step (memory_protect x b i n p) = ignore (hrx_allocator_virtual_memory_protect a x b i n p)

  unfoldable pub run : List BufferOp → B (Unit {0})
  run [] = pure tt
  run (c ∷ cs) = do step c; run cs

-- The references left after a call with `n` of them: `none` when the caller has none to call with,
-- or destroys virtual memory that others still hold.
abbrev pub after : BufferOp → ℕ → Option ℕ
after retain n = if n == 0 then none else some (n + 1)
after release n = if n == 0 then none else some (n - 1)
after (memory_release x b) n =
    if is_null x || is_null b then some n else if n == 1 then some 0 else none
after _ n = if n == 0 then none else some n

abbrev pub references : List BufferOp → Option ℕ → Option ℕ
references cs none = none
references [] (some n) = some n
references (c ∷ cs) (some n) = references cs (after c n)
