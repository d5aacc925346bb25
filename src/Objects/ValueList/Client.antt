-- ===== src/Objects/ValueList/Client.antt =====
-- A client of crates/hrx-libhrx/src/value_list.rs: any sequence of pushes and reads on one list.
use hrx_system_rs.Base.{ℕ, Option, List, [], ◌∷◌, ℤ}
use hrx_system_rs.Ffi.{HrxStatus, pure, ◌>>=◌}
use hrx_system_rs.Objects.{ObjectCall, O, VmValue}
use hrx_system_rs.Objects.ValueList.{
  hrx_value_list_size, hrx_value_list_push_i64, hrx_value_list_push_null_ref,
  hrx_value_list_push_buffer, hrx_value_list_push_buffer_view, hrx_value_list_push_fence,
  hrx_value_list_get_i64,
}

-- The arguments are those of the calls, without the list.
pub data ListOp : Type 0 where
  push_i64 : ℤ → ListOp
  push_null_ref : ListOp
  push_buffer push_buffer_view push_fence : ℕ → ListOp
  size : ℕ → ListOp
  get_i64 : ℕ → ℕ → ListOp

pub data Answer : Type 0 where
  pushed : HrxStatus → Answer
  sized : HrxStatus × Option ℕ → Answer
  got : HrxStatus × Option ℤ → Answer

-- The objects behind handles, and what IREE writes of a value that is read.
pub record Handles : Type 0 where
  pub value_list_vm : ℕ → ℕ
  pub buffer_hal : ℕ → ℕ
  pub buffer_view_hal : ℕ → ℕ
  pub fence_hal : ℕ → ℕ
  pub written : List ObjectCall → VmValue

module _ (h : Handles) (list : ℕ) {S : Type 0} where
  unfoldable pub step : ListOp → O S Answer
  step (push_i64 v) = do r ← hrx_value_list_push_i64 h.value_list_vm list v; pure (pushed r)
  step push_null_ref = do r ← hrx_value_list_push_null_ref h.value_list_vm list; pure (pushed r)
  step (push_buffer b) = do
    r ← hrx_value_list_push_buffer h.value_list_vm h.buffer_hal list b
    pure (pushed r)
  step (push_buffer_view b) = do
    r ← hrx_value_list_push_buffer_view h.value_list_vm h.buffer_view_hal list b
    pure (pushed r)
  step (push_fence f) = do
    r ← hrx_value_list_push_fence h.value_list_vm h.fence_hal list f
    pure (pushed r)
  step (size p) = do r ← hrx_value_list_size h.value_list_vm list p; pure (sized r)
  step (get_i64 i p) = do
    r ← hrx_value_list_get_i64 h.value_list_vm h.written list i p
    pure (got r)

  unfoldable pub run : List ListOp → O S (List Answer)
  run [] = pure []
  run (c ∷ cs) = do a ← step c; as_ ← run cs; pure (a ∷ as_)
