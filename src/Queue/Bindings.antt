-- ===== src/Queue/Bindings.antt =====
-- crates/hrx-libhrx/src/queue_ops.rs: `build_hal_bindings`, which the streams use too, and the
-- public argument types. An array with its count is a list; a NULL array keeps its count.
use hrx_system_rs.Base.{ℕ, Bool, false, Option, none, some, List, [], ◌∷◌, ltb, if◌then◌else◌}
use hrx_system_rs.Hal.{Objects, HalBufferRef, HalDispatchConfig, is_null}

pub record HrxBufferRef : Type 0 where
  pub buffer : ℕ
  pub offset : ℕ
  pub length : ℕ

pub record HrxDispatchConfig : Type 0 where
  pub workgroup_count : ℕ × ℕ × ℕ
  pub workgroup_size : ℕ × ℕ × ℕ
  pub subgroup_size : ℕ

pub data CArray (A : Type 0) : Type 0 where
  null_array : ℕ → CArray A
  array : List A → CArray A

-- `count > 0 && array.is_null()`.
abbrev pub is_missing : {A : Type 0} → CArray A → Bool
is_missing (null_array count) = ltb 0 count
is_missing (array xs) = false

abbrev pub items : {A : Type 0} → CArray A → List A
items (null_array count) = []
items (array xs) = xs

abbrev pub hal_config : HrxDispatchConfig → HalDispatchConfig
hal_config c = record { workgroup_size = c.workgroup_size; workgroup_count = c.workgroup_count }

abbrev push_ref : HalBufferRef → Option (List HalBufferRef) → Option (List HalBufferRef)
push_ref b none = none
push_ref b (some bs) = some (b ∷ bs)

-- `none` is `Err(())`: a binding with a NULL buffer.
unfoldable pub build_hal_bindings : Objects → List HrxBufferRef → Option (List HalBufferRef)
build_hal_bindings o [] = some []
build_hal_bindings o (b ∷ bs) =
    if is_null b.buffer
    then none
    else push_ref (record { buffer = o.buffer_hal b.buffer; offset = b.offset; length = b.length })
        (build_hal_bindings o bs)
