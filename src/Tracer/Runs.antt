-- ===== src/Tracer/Runs.antt =====
-- crates/hip-buffer-tracer/src/lib.rs: the tracer from its initialisation on, over any sequence of
-- intercepted calls.
use hrx_system_rs.Base.{
  ℕ, zero, suc, ◌+◌, ◌^◌, ◌≤◌, ◌<◌, ◌≡◌, refl, true, Bool, Option, none, some, List, [], ◌∷◌,
  length, replicate, pos, arith,
}
use hrx_system_rs.Ffi.{Env}
use hrx_system_rs.Ffi.Ensures.{Ensures, bind}
use hrx_system_rs.Tracer.{State, TracerCall, unused}
use hrx_system_rs.Hip.{HipFunction}
use hrx_system_rs.Tracer.Text.{Str, parse_integer}
use hrx_system_rs.Tracer.Setup.{Variables, getenv_int, hip_interceptor_init}
use hrx_system_rs.Tracer.Client.{
  TracedCall, malloc, host_malloc, free, host_free, launch, register, forward, notice,
  register_fat_binary, step, run, Fits, CallsFit,
}
use hrx_system_rs.Tracer.Tables.{AllFit, used, IdsBelow, IdsDistinct, AllLive}
use hrx_system_rs.Tracer.Tracking.{
  WithinLimit, IsTracked, Within, wrap_hip_malloc-Within, wrap_hip_host_malloc-Within,
  wrap_hip_free-Within, wrap_hip_host_free-Within, wrap_launch-Within,
  wrap_hip_register_function-Within, wrap_forward-Within, wrap_notice-Within,
  wrap_hip_register_fat_binary-Within,
}

module _ (e : Env TracerCall) (real : HipFunction → Bool)
    (filled : (f : HipFunction) → real f ≡ true) (memory : List TracerCall → ℕ → ℕ) where
  step-Within :
      (c : TracedCall) (n : ℕ) (st : State) (t : List TracerCall)
      → Within n st
      → n + 1 < 2 ^ 64
      → Fits c
      → Ensures (λ _ st' _. Within (n + 1) st') (step real memory c e st t)
  unfolding step
  step-Within (malloc out size) n st t w room fits =
      ground (arith, wrap_hip_malloc-Within e real filled out size n st t w room fits)
  step-Within (host_malloc out size) n st t w room fits =
      ground (arith, wrap_hip_host_malloc-Within e real filled out size n st t w room fits)
  step-Within (free q) n st t w room fits =
      ground (arith, wrap_hip_free-Within e real filled q n st t w)
  step-Within (host_free q) n st t w room fits =
      ground (arith, wrap_hip_host_free-Within e real filled q n st t w)
  step-Within (launch l f) n st t w room fits =
      ground (arith, wrap_launch-Within e real filled memory l f n st t w)
  step-Within (register f name) n st t w room fits =
      ground (arith, wrap_hip_register_function-Within e real filled f n name st t w)
  step-Within (forward c) n st t w room fits =
      ground (arith, wrap_forward-Within e real filled c n st t w)
  step-Within (notice c) n st t w room fits =
      ground (arith, wrap_notice-Within e real filled c n st t w)
  step-Within (register_fat_binary data_) n st t w room fits =
      ground (arith, wrap_hip_register_fat_binary-Within e real filled data_ n st t w)

  run-Within :
      (cs : List TracedCall) (n : ℕ) (st : State) (t : List TracerCall)
      → Within n st
      → n + length cs < 2 ^ 64
      → CallsFit cs
      → Ensures (λ _ st' _. IsTracked st') (run real memory cs e st t)
  unfolding run
  run-Within [] n st t w room fit = w.0
  run-Within (c ∷ cs) n st t w room fit =
      bind (λ _ st' _. Within (n + 1) st') (λ _ st' _. IsTracked st') (step real memory c e st t) _
        (step-Within c n st t w (omega arith) fit.0)
        (λ _ st' u w'. run-Within cs (n + 1) st' u w' (omega arith) fit.1)

used-replicate : (n : ℕ) → used (replicate n unused) ≡ 0
used-replicate zero = refl
used-replicate (suc n) = used-replicate n

length-replicate : (n : ℕ) → length (replicate n unused) ≡ n
length-replicate zero = refl
length-replicate (suc n) = ground (arith, length-replicate n)

replicate-below : (m n : ℕ) → IdsBelow m (replicate n unused)
replicate-below m zero = tt
replicate-below m (suc n) = (tt, replicate-below m n)

replicate-distinct : (n : ℕ) → IdsDistinct (replicate n unused)
replicate-distinct zero = tt
replicate-distinct (suc n) = (tt, replicate-distinct n)

replicate-fits : (n : ℕ) → AllFit (replicate n unused)
replicate-fits zero = tt
replicate-fits (suc n) = (tt, replicate-fits n)

replicate-live : (n : ℕ) → AllLive (replicate n unused)
replicate-live zero = tt
replicate-live (suc n) = (tt, replicate-live n)

parse-fits : (s : Str) → WithinLimit (parse_integer 32 s) 0
unfolding parse_integer
parse-fits s = ground arith

limit-fits : (v : Option Str) → WithinLimit (getenv_int v (pos 0)) 0
limit-fits none = tt
limit-fits (some s) = parse-fits s

-- From the state that the initialisation sets up, with 65536 slots at most and every slot of the real
-- table filled, any sequence of fewer than 2^64 - 1 intercepted calls that ask for sizes below 2^63 ends
-- without a panic, dumps included, whatever HIP answers and whatever the buffers hold. The count is then
-- the number of used slots; each of these holds a pointer that is not NULL and a size that is not 0,
-- under an id of its own; each kernel is registered once, and with a positive limit no more kernels than
-- it have been counted.
pub run-init-IsTracked :
    (e : Env TracerCall) (real : HipFunction → Bool) (memory : List TracerCall → ℕ → ℕ)
    (has_file : Bool) (v : Variables) (slots : ℕ) (cs : List TracedCall)
    → ((f : HipFunction) → real f ≡ true)
    → slots ≤ 65536
    → length cs + 1 < 2 ^ 64
    → CallsFit cs
    → Ensures
        (λ _ st _. IsTracked st)
        (run real memory cs e (hip_interceptor_init has_file v slots) [])
unfolding hip_interceptor_init
run-init-IsTracked e real memory has_file v slots cs filled few room fit =
    run-Within e real filled memory cs 1 _ []
      (
        record {
          counted = ground (arith, used-replicate slots);
          slots = ground (arith, length-replicate slots);
          below = replicate-below 1 slots;
          distinct = replicate-distinct slots;
          live = replicate-live slots;
          registered = tt;
          limited = limit-fits v.kernel_count;
        },
        replicate-fits slots,
        omega arith,
      )
      (omega arith) fit
