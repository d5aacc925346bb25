-- ===== src/Queue/Release.antt =====
-- crates/hrx-libhrx/src/queue_ops.rs: the command buffers of a fill and of a copy.
use hrx_system_rs.Base.{ℕ, ◌≡◌, some, List, arith}
use hrx_system_rs.Ffi.{Env}
use hrx_system_rs.Ffi.Ensures.{Ensures}
use hrx_system_rs.Hal.{HalCall, Objects, SemaphoreValue}
use hrx_system_rs.Hal.Ledger.{open_buffers}
use hrx_system_rs.Queue.{
  HrxSemaphoreList, to_iree_sem_list, execute_transfer, hrx_queue_fill, hrx_queue_copy,
}

-- The list can be converted: it fits the arrays and its handles are live.
abbrev pub Converts : Objects → HrxSemaphoreList → Type 0
Converts o xs = (ys : List SemaphoreValue) × (to_iree_sem_list o xs ≡ some ys)

module _ (o : Objects) (e : Env HalCall) {S : Type 0} (s : S) (t : List HalCall)
    (waits signals : HrxSemaphoreList) (fit : Converts o waits) (fit' : Converts o signals)
    (l : List ℕ) (before : open_buffers e t ≡ some l) where
  -- A fill or a copy on the queue leaves open the command buffers that were open before it, and no
  -- other: the one that it creates is released once, whichever call fails. It does not fault when
  -- both semaphore lists convert.
  pub transfer-closes :
      (device affinity a i b j n k : ℕ)
      → Ensures
          (λ _ _ t'. open_buffers e t' ≡ some l)
          (hrx_queue_fill o device affinity waits signals a i n b k e s t)
        × Ensures
            (λ _ _ t'. open_buffers e t' ≡ some l)
            (hrx_queue_copy o device affinity waits signals a i b j n e s t)
  unfolding hrx_queue_fill hrx_queue_copy execute_transfer
  transfer-closes device affinity a i b j n k = (ground arith, ground arith)
