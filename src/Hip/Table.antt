-- ===== src/Hip/Table.antt =====
-- The order of the table of crates/hip-function-table/src/lib.rs.
use hrx_system_rs.Base.{
  ℕ, zero, suc, ◌≡◌, refl, sym, ◌∙◌, ap, Bool, true, false, ◌||◌, Bool-cases, inl, inr, Option,
  none, some, List, [], ◌∷◌, ◌==◌, arith,
}
use hrx_system_rs.Hip.{HipFunction}

abbrev pub all_functions : List HipFunction
all_functions =
    HipFunction.hip_init ∷ HipFunction.hip_driver_get_version ∷ HipFunction.hip_runtime_get_version
    ∷ HipFunction.hip_get_device ∷ HipFunction.hip_get_device_count ∷ HipFunction.hip_set_device
    ∷ HipFunction.hip_device_reset ∷ HipFunction.hip_device_synchronize
    ∷ HipFunction.hip_get_device_properties ∷ HipFunction.hip_device_get_attribute
    ∷ HipFunction.hip_device_get_name ∷ HipFunction.hip_malloc ∷ HipFunction.hip_free
    ∷ HipFunction.hip_host_malloc ∷ HipFunction.hip_host_free ∷ HipFunction.hip_mem_get_info
    ∷ HipFunction.hip_memcpy ∷ HipFunction.hip_memcpy_async ∷ HipFunction.hip_memset
    ∷ HipFunction.hip_memset_async ∷ HipFunction.hip_stream_create
    ∷ HipFunction.hip_stream_create_with_flags ∷ HipFunction.hip_stream_destroy
    ∷ HipFunction.hip_stream_synchronize ∷ HipFunction.hip_stream_query
    ∷ HipFunction.hip_stream_wait_event ∷ HipFunction.hip_event_create
    ∷ HipFunction.hip_event_create_with_flags ∷ HipFunction.hip_event_destroy
    ∷ HipFunction.hip_event_record ∷ HipFunction.hip_event_synchronize ∷ HipFunction.hip_event_query
    ∷ HipFunction.hip_event_elapsed_time ∷ HipFunction.hip_module_load
    ∷ HipFunction.hip_module_load_data ∷ HipFunction.hip_module_unload
    ∷ HipFunction.hip_module_get_function ∷ HipFunction.hip_module_get_global
    ∷ HipFunction.hip_module_launch_kernel ∷ HipFunction.hip_launch_kernel
    ∷ HipFunction.hip_ext_module_launch_kernel ∷ HipFunction.hip_register_fat_binary
    ∷ HipFunction.hip_unregister_fat_binary ∷ HipFunction.hip_register_function
    ∷ HipFunction.hip_register_var ∷ HipFunction.hip_get_error_string
    ∷ HipFunction.hip_get_error_name ∷ HipFunction.hip_get_last_error
    ∷ HipFunction.hip_peek_at_last_error ∷ []

-- The position of a slot in the table.
abbrev pub index_of : HipFunction → ℕ
index_of HipFunction.hip_init = 0
index_of HipFunction.hip_driver_get_version = 1
index_of HipFunction.hip_runtime_get_version = 2
index_of HipFunction.hip_get_device = 3
index_of HipFunction.hip_get_device_count = 4
index_of HipFunction.hip_set_device = 5
index_of HipFunction.hip_device_reset = 6
index_of HipFunction.hip_device_synchronize = 7
index_of HipFunction.hip_get_device_properties = 8
index_of HipFunction.hip_device_get_attribute = 9
index_of HipFunction.hip_device_get_name = 10
index_of HipFunction.hip_malloc = 11
index_of HipFunction.hip_free = 12
index_of HipFunction.hip_host_malloc = 13
index_of HipFunction.hip_host_free = 14
index_of HipFunction.hip_mem_get_info = 15
index_of HipFunction.hip_memcpy = 16
index_of HipFunction.hip_memcpy_async = 17
index_of HipFunction.hip_memset = 18
index_of HipFunction.hip_memset_async = 19
index_of HipFunction.hip_stream_create = 20
index_of HipFunction.hip_stream_create_with_flags = 21
index_of HipFunction.hip_stream_destroy = 22
index_of HipFunction.hip_stream_synchronize = 23
index_of HipFunction.hip_stream_query = 24
index_of HipFunction.hip_stream_wait_event = 25
index_of HipFunction.hip_event_create = 26
index_of HipFunction.hip_event_create_with_flags = 27
index_of HipFunction.hip_event_destroy = 28
index_of HipFunction.hip_event_record = 29
index_of HipFunction.hip_event_synchronize = 30
index_of HipFunction.hip_event_query = 31
index_of HipFunction.hip_event_elapsed_time = 32
index_of HipFunction.hip_module_load = 33
index_of HipFunction.hip_module_load_data = 34
index_of HipFunction.hip_module_unload = 35
index_of HipFunction.hip_module_get_function = 36
index_of HipFunction.hip_module_get_global = 37
index_of HipFunction.hip_module_launch_kernel = 38
index_of HipFunction.hip_launch_kernel = 39
index_of HipFunction.hip_ext_module_launch_kernel = 40
index_of HipFunction.hip_register_fat_binary = 41
index_of HipFunction.hip_unregister_fat_binary = 42
index_of HipFunction.hip_register_function = 43
index_of HipFunction.hip_register_var = 44
index_of HipFunction.hip_get_error_string = 45
index_of HipFunction.hip_get_error_name = 46
index_of HipFunction.hip_get_last_error = 47
index_of HipFunction.hip_peek_at_last_error = 48

abbrev function_at : List HipFunction → ℕ → Option HipFunction
function_at [] n = none
function_at (f ∷ fs) zero = some f
function_at (f ∷ fs) (suc n) = function_at fs n

-- The function stands in the list.
abbrev pub is_listed : HipFunction → List HipFunction → Bool
is_listed f [] = false
is_listed f (g ∷ gs) = (index_of f == index_of g) || is_listed f gs

function_at-index_of : (f : HipFunction) → function_at all_functions (index_of f) ≡ some f
function_at-index_of HipFunction.hip_init = refl
function_at-index_of HipFunction.hip_driver_get_version = refl
function_at-index_of HipFunction.hip_runtime_get_version = refl
function_at-index_of HipFunction.hip_get_device = refl
function_at-index_of HipFunction.hip_get_device_count = refl
function_at-index_of HipFunction.hip_set_device = refl
function_at-index_of HipFunction.hip_device_reset = refl
function_at-index_of HipFunction.hip_device_synchronize = refl
function_at-index_of HipFunction.hip_get_device_properties = refl
function_at-index_of HipFunction.hip_device_get_attribute = refl
function_at-index_of HipFunction.hip_device_get_name = refl
function_at-index_of HipFunction.hip_malloc = refl
function_at-index_of HipFunction.hip_free = refl
function_at-index_of HipFunction.hip_host_malloc = refl
function_at-index_of HipFunction.hip_host_free = refl
function_at-index_of HipFunction.hip_mem_get_info = refl
function_at-index_of HipFunction.hip_memcpy = refl
function_at-index_of HipFunction.hip_memcpy_async = refl
function_at-index_of HipFunction.hip_memset = refl
function_at-index_of HipFunction.hip_memset_async = refl
function_at-index_of HipFunction.hip_stream_create = refl
function_at-index_of HipFunction.hip_stream_create_with_flags = refl
function_at-index_of HipFunction.hip_stream_destroy = refl
function_at-index_of HipFunction.hip_stream_synchronize = refl
function_at-index_of HipFunction.hip_stream_query = refl
function_at-index_of HipFunction.hip_stream_wait_event = refl
function_at-index_of HipFunction.hip_event_create = refl
function_at-index_of HipFunction.hip_event_create_with_flags = refl
function_at-index_of HipFunction.hip_event_destroy = refl
function_at-index_of HipFunction.hip_event_record = refl
function_at-index_of HipFunction.hip_event_synchronize = refl
function_at-index_of HipFunction.hip_event_query = refl
function_at-index_of HipFunction.hip_event_elapsed_time = refl
function_at-index_of HipFunction.hip_module_load = refl
function_at-index_of HipFunction.hip_module_load_data = refl
function_at-index_of HipFunction.hip_module_unload = refl
function_at-index_of HipFunction.hip_module_get_function = refl
function_at-index_of HipFunction.hip_module_get_global = refl
function_at-index_of HipFunction.hip_module_launch_kernel = refl
function_at-index_of HipFunction.hip_launch_kernel = refl
function_at-index_of HipFunction.hip_ext_module_launch_kernel = refl
function_at-index_of HipFunction.hip_register_fat_binary = refl
function_at-index_of HipFunction.hip_unregister_fat_binary = refl
function_at-index_of HipFunction.hip_register_function = refl
function_at-index_of HipFunction.hip_register_var = refl
function_at-index_of HipFunction.hip_get_error_string = refl
function_at-index_of HipFunction.hip_get_error_name = refl
function_at-index_of HipFunction.hip_get_last_error = refl
function_at-index_of HipFunction.hip_peek_at_last_error = refl

abbrev or : HipFunction → Option HipFunction → HipFunction
or d none = d
or d (some f) = f

-- No two slots have the same position.
pub index_of-Injective : (f g : HipFunction) → index_of f ≡ index_of g → f ≡ g
index_of-Injective f g same =
    ap (or f)
      (sym (function_at-index_of f) ∙ ap (function_at all_functions) same ∙ function_at-index_of g)

pub equal_index : (f g : HipFunction) → (index_of f == index_of g) ≡ true → f ≡ g
equal_index f g same =
    let equal : (m n : ℕ) → (m == n) ≡ true → m ≡ n = λ m n h. ground arith in
    index_of-Injective f g (equal (index_of f) (index_of g) same)

function_at-is_listed :
    (fs : List HipFunction) (n : ℕ) (f : HipFunction)
    → function_at fs n ≡ some f
    → is_listed f fs ≡ true
function_at-is_listed [] n f found = cc
function_at-is_listed (g ∷ gs) zero f found =
    let same : (n : ℕ) → (n == n) ≡ true = λ n. ground arith in
    let f_is_g : f ≡ g = ap (or g) (sym found) in rw (f_is_g, same (index_of g)) refl
function_at-is_listed (g ∷ gs) (suc n) f found = elim (Bool-cases (index_of f == index_of g)) [
  | inl same ↦ rw same refl
  | inr other ↦ rw (other, function_at-is_listed gs n f found) refl
]

pub all_functions-Complete : (f : HipFunction) → is_listed f all_functions ≡ true
all_functions-Complete f =
    function_at-is_listed all_functions (index_of f) f (function_at-index_of f)
