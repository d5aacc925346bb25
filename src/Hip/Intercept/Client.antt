-- ===== src/Hip/Intercept/Client.antt =====
-- A client of crates/hip-intercept/src/lib.rs: any sequence of calls of its exported functions.
use hrx_system_rs.Base.{ℕ, List, [], ◌∷◌}
use hrx_system_rs.Ffi.{pure, ◌>>=◌}
use hrx_system_rs.Hip.{HipCall, Answer}
use hrx_system_rs.Hip.Process.{ProcessCall, DirectCall, P}
use hrx_system_rs.Hip.Logging.Messages.{Memory}
use hrx_system_rs.Hip.Intercept.{
  Interceptor, Variables, exported, passthrough, hip_passthrough_get_real_table,
  hip_passthrough_get_active_table,
}

pub data HipOp : Type 0 where
  hip : HipCall → HipOp
  outside_table : DirectCall → HipOp
  get_real_table get_active_table : HipOp

-- A call of a HIP function, of the table or outside it.
pub data Request : Type 0 where
  routed : HipCall → Request
  direct : DirectCall → Request

-- The HIP calls with their answers, the last one first.
abbrev pub History : Type 0
History = List (Request × Answer)

module _ (v : Variables) (which : ℕ → Interceptor) (memory : List ProcessCall → Memory) where
  unfoldable pub step : HipOp → History → P History
  step (hip c) h = do a ← exported v which memory c; pure ((routed c, a) ∷ h)
  step (outside_table d) h = do a ← passthrough v which memory d; pure ((direct d, a) ∷ h)
  step get_real_table h = do t ← hip_passthrough_get_real_table v which memory; pure h
  step get_active_table h = do t ← hip_passthrough_get_active_table v which memory; pure h

  unfoldable pub run : List HipOp → History → P History
  run [] h = pure h
  run (c ∷ cs) h = do g ← step c h; run cs g
