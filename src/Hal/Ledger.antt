-- ===== src/Hal/Ledger.antt =====
-- The command buffers that a trace leaves open: created, and not yet released.
use hrx_system_rs.Base.{ℕ, ◌≡◌, ◌≢◌, Option, none, some, List, [], ◌∷◌}
use hrx_system_rs.Ffi.{Env, Reply, IreeStatus}
use hrx_system_rs.Ffi.Kinds.{keep_first, take_out}
use hrx_system_rs.Hal.{HalCall, command_buffer_create, command_buffer_release}

abbrev open_if_ok : IreeStatus → ℕ → Option (List ℕ) → Option (List ℕ)
open_if_ok none p l = keep_first p l
open_if_ok (some c) p l = l

abbrev release_from : ℕ → Option (List ℕ) → Option (List ℕ)
release_from p none = none
release_from p (some qs) = take_out p qs

abbrev account : HalCall → Reply → Option (List ℕ) → Option (List ℕ)
account (command_buffer_create device mode categories affinity) r l = open_if_ok r.status r.ptr l
account (command_buffer_release p) r l = release_from p l
account _ r l = l

-- `none` records the release of a command buffer that was not open: a double release.
abbrev pub open_buffers : Env HalCall → List HalCall → Option (List ℕ)
open_buffers e [] = some []
open_buffers e (c ∷ t) = account c (e.reply (c ∷ t)) (open_buffers e t)

-- A creation that succeeds gives a command buffer, as IREE documents.
abbrev pub CreatesBuffers : Env HalCall → Type 0
CreatesBuffers e =
    (device mode categories affinity : ℕ) (t : List HalCall)
    → (e.reply (command_buffer_create device mode categories affinity ∷ t)).status ≡ none
    → (e.reply (command_buffer_create device mode categories affinity ∷ t)).ptr ≢ 0
