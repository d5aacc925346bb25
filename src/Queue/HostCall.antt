-- ===== src/Queue/HostCall.antt =====
-- crates/hrx-libhrx/src/queue_ops.rs: the thunk of a host call, in the operation and in the trampoline.
use hrx_system_rs.Base.{ℕ, ◌≡◌, none, some, Option, List, [], ◌∷◌, ◌==◌, if◌then◌else◌, arith}
use hrx_system_rs.Ffi.{Env, HrxStatus, IreeStatus, M, pure, ◌>>=◌}
use hrx_system_rs.Ffi.Ensures.{Ensures}
use hrx_system_rs.Hal.{HalCall, Objects, queue_host_call, malloc, free}
use hrx_system_rs.Ffi.Kinds.{take_out}
use hrx_system_rs.Queue.{HrxSemaphoreList, hrx_queue_host_call, host_call_trampoline}
use hrx_system_rs.Queue.Release.{Converts}

abbrev add_if_allocated : ℕ → Option (List ℕ) → Option (List ℕ)
add_if_allocated p none = none
add_if_allocated p (some qs) = if p == 0 then some qs else some (p ∷ qs)

abbrev free_from : ℕ → Option (List ℕ) → Option (List ℕ)
free_from p none = none
free_from p (some qs) = take_out p qs

abbrev thunk_step : HalCall → ℕ → Option (List ℕ) → Option (List ℕ)
thunk_step (malloc n) p l = add_if_allocated p l
thunk_step (free q) p l = free_from q l
thunk_step _ p l = l

-- The blocks that were allocated and not freed; `none` after a free of anything else.
abbrev pub live_blocks : Env HalCall → List HalCall → Option (List ℕ)
live_blocks e [] = some []
live_blocks e (c ∷ t) = thunk_step c (e.reply (c ∷ t)).ptr (live_blocks e t)

abbrev if_taken : IreeStatus → ℕ → Option ℕ
if_taken none p = some p
if_taken (some c) p = none

-- The thunk that IREE holds after the last call of the trace: that of an accepted host call.
abbrev handed : Env HalCall → List HalCall → Option ℕ
handed e (queue_host_call device affinity waits signals thunk ∷ t) =
    if_taken (e.reply (queue_host_call device affinity waits signals thunk ∷ t)).status thunk
handed e _ = none

module _ {S : Type 0} where
  abbrev deliver_to : HrxStatus → Option ℕ → M HalCall S (Unit {0})
  deliver_to answer none = pure tt
  deliver_to answer (some thunk) = do r ← host_call_trampoline thunk answer; pure tt

  -- IREE runs the trampoline of the call that it accepted, if there is one.
  abbrev pub deliver : HrxStatus → M HalCall S (Unit {0})
  deliver answer e s t = deliver_to answer (handed e t) e s t

pub host_call-deliver-frees :
    (o : Objects) (e : Env HalCall) {S : Type 0} (s : S) (t : List HalCall)
    (waits signals : HrxSemaphoreList) (device affinity callback : ℕ) (answer : HrxStatus)
    (l : List ℕ)
    → Converts o waits
    → Converts o signals
    → handed e t ≡ none
    → live_blocks e t ≡ some l
    → Ensures
        (λ _ _ t'. live_blocks e t' ≡ some l)
        ((hrx_queue_host_call o device affinity waits signals callback >>= λ _. deliver answer) e s
          t)
unfolding hrx_queue_host_call host_call_trampoline
host_call-deliver-frees o e s t waits signals device affinity callback answer l fit fit' idle
      before =
    ground arith
