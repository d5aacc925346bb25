-- ===== src/Tracer/Client.antt =====
-- A client of crates/hip-buffer-tracer: any sequence of intercepted calls.
use hrx_system_rs.Base.{ℕ, ◌<◌, ◌^◌, Bool, Option, List, [], ◌∷◌}
use hrx_system_rs.Ffi.{pure, ◌>>=◌, ◌>>◌}
use hrx_system_rs.Tracer.{Launch, TracerCall, T}
use hrx_system_rs.Tracer.Text.{Str}
use hrx_system_rs.Hip.{HipFunction, HipCall}
use hrx_system_rs.Tracer.Forwarding.{wrap_forward, wrap_hip_register_fat_binary, wrap_notice}
use hrx_system_rs.Tracer.Wrappers.{
  wrap_hip_malloc, wrap_hip_free, wrap_hip_host_malloc, wrap_hip_host_free, wrap_launch,
  wrap_hip_register_function,
}

pub data TracedCall : Type 0 where
  malloc host_malloc : ℕ → ℕ → TracedCall
  free host_free : ℕ → TracedCall
  launch : Launch → ℕ → TracedCall
  register : ℕ → Option Str → TracedCall
  forward notice : HipCall → TracedCall
  register_fat_binary : ℕ → TracedCall

-- Every size that is asked for is below 2^63.
abbrev pub Fits : TracedCall → Type 0
Fits (malloc out n) = n < 2 ^ 63
Fits (host_malloc out n) = n < 2 ^ 63
Fits _ = Unit {0}

abbrev pub CallsFit : List TracedCall → Type 0
CallsFit [] = Unit {0}
CallsFit (c ∷ cs) = Fits c × CallsFit cs

abbrev ignore : {A : Type 0} → T A → T (Unit {0})
ignore m = do a ← m; pure tt

-- `real`: which slots of the real table are filled.
module _ (real : HipFunction → Bool) (memory : List TracerCall → ℕ → ℕ) where
  unfoldable pub step : TracedCall → T (Unit {0})
  step (malloc out n) = ignore (wrap_hip_malloc real out n)
  step (host_malloc out n) = ignore (wrap_hip_host_malloc real out n)
  step (free q) = ignore (wrap_hip_free real q)
  step (host_free q) = ignore (wrap_hip_host_free real q)
  step (launch l f) = ignore (wrap_launch real memory l f)
  step (register f name) = wrap_hip_register_function real f name
  step (forward c) = ignore (wrap_forward real c)
  step (notice c) = wrap_notice real c
  step (register_fat_binary data_) = ignore (wrap_hip_register_fat_binary real data_)

  unfoldable pub run : List TracedCall → T (Unit {0})
  run [] = pure tt
  run (c ∷ cs) = do step c; run cs
