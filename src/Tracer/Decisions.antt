-- ===== src/Tracer/Decisions.antt =====
-- crates/hip-buffer-tracer/src/lib.rs: which kernels are traced, and for which the dump is full.
use hrx_system_rs.Base.{
  ℕ, Bool, true, false, not, ◌&&◌, ◌||◌, Option, none, some, List, [], ◌∷◌, ◌^◌, ltb, leb,
  if◌then◌else◌, ℤ, pos, negsuc,
}
use hrx_system_rs.Ffi.{pure, ◌>>=◌, ◌>>◌, get}
use hrx_system_rs.Tracer.{State, T, full_dump_match, trace_msg}
use hrx_system_rs.Tracer.Text.{Str, contains, is_empty, split}

-- `limit > 0 && count >= limit` between signed 32-bit numbers.
abbrev is_reached : ℤ → ℕ → Bool
is_reached (pos limit) count = ltb 0 limit && ltb count (2 ^ 31) && leb limit count
is_reached (negsuc limit) count = false

abbrev passes : Option Str → Option Str → Bool
passes none name = true
passes (some filter) none = is_empty filter
passes (some filter) (some name) = is_empty filter || contains name filter

unfoldable pub should_trace_kernel : State → Option Str → Bool
should_trace_kernel st name =
    if is_reached st.kernel_count_limit st.kernel_count then false else passes st.kernel_filter name

-- The first token of the list that the name contains.
unfoldable pub matching_token : Str → List Str → Option Str
matching_token name [] = none
matching_token name (token ∷ tokens) =
    if not (is_empty token) && contains name token then some token else matching_token name tokens

abbrev matched : Str → Option Str → T Bool
matched name none = pure false
matched name (some token) = do trace_msg 3 (full_dump_match name token); pure true

abbrev should_full_dump_named : Option Str → Option Str → T Bool
should_full_dump_named (some list) (some name) =
    if is_empty list then pure false else matched name (matching_token name (split list 58))
should_full_dump_named _ _ = pure false

unfoldable pub should_full_dump_kernel : Option Str → T Bool
should_full_dump_kernel name = do st ← get; should_full_dump_named st.kernel_full_dump_list name
