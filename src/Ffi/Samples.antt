-- ===== src/Ffi/Samples.antt =====
-- Environments for the tests: every call succeeds with a fresh pointer, or one call fails.
use hrx_system_rs.Base.{ℕ, none, some, false, length, ◌==◌, if◌then◌else◌}
use hrx_system_rs.Ffi.{Env}

module _ {C : Type 0} where
  abbrev pub ok_env : Env C
  ok_env = record {
    reply = λ t. record { status = none; ptr = length t; num = length t };
    malloc_fails = λ t. false;
    dup = λ t s. some s;
    describe = λ t c. none;
  }

  -- The n-th call fails with IREE's code 13.
  abbrev pub fails_at : ℕ → Env C
  fails_at n = record {
    reply = λ t. record {
      status = if length t == n then some 13 else none;
      ptr = length t;
      num = length t;
    };
    malloc_fails = λ t. false;
    dup = λ t s. some s;
    describe = λ t c. none;
  }
