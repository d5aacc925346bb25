-- ===== src/Hip.antt =====
-- crates/hip-function-table/src/lib.rs: the table of HIP functions that the interception layer routes,
-- and the calls on them. Arguments are the bits of the C values.
pub mod Process
pub mod Table
pub mod Logging
pub mod Noop
pub mod Intercept
use hrx_system_rs.Base.{ℕ, Option, none, some, List, [], ◌∷◌, ◌==◌, if◌then◌else◌, String}

-- The slots of the table, in its order.
pub data HipFunction : Type 0 where
  hip_init hip_driver_get_version hip_runtime_get_version hip_get_device : HipFunction
  hip_get_device_count hip_set_device hip_device_reset hip_device_synchronize : HipFunction
  hip_get_device_properties hip_device_get_attribute hip_device_get_name : HipFunction
  hip_malloc hip_free hip_host_malloc hip_host_free hip_mem_get_info hip_memcpy : HipFunction
  hip_memcpy_async hip_memset hip_memset_async hip_stream_create : HipFunction
  hip_stream_create_with_flags hip_stream_destroy hip_stream_synchronize : HipFunction
  hip_stream_query hip_stream_wait_event hip_event_create : HipFunction
  hip_event_create_with_flags hip_event_destroy hip_event_record : HipFunction
  hip_event_synchronize hip_event_query hip_event_elapsed_time hip_module_load : HipFunction
  hip_module_load_data hip_module_unload hip_module_get_function : HipFunction
  hip_module_get_global hip_module_launch_kernel hip_launch_kernel : HipFunction
  hip_ext_module_launch_kernel hip_register_fat_binary hip_unregister_fat_binary : HipFunction
  hip_register_function hip_register_var hip_get_error_string hip_get_error_name : HipFunction
  hip_get_last_error hip_peek_at_last_error : HipFunction

-- `dim3`, also the three numbers that a launch takes one by one.
pub record Dim3 : Type 0 where
  pub x : ℕ
  pub y : ℕ
  pub z : ℕ

-- A call with its arguments. A launch takes the kernel, the grid, the block, and then: shared memory,
-- stream, parameters, extra (`hip_module_launch_kernel`); arguments, shared memory, stream
-- (`hip_launch_kernel`); shared memory, stream, parameters, extra, start, stop, flags
-- (`hip_ext_module_launch_kernel`). The last argument of `hip_register_function` holds the thread limit
-- and the five pointers.
pub data HipCall : Type 0 where
  hip_init hip_driver_get_version hip_runtime_get_version hip_get_device : ℕ → HipCall
  hip_get_device_count hip_set_device : ℕ → HipCall
  hip_device_reset hip_device_synchronize : HipCall
  hip_get_device_properties : ℕ → ℕ → HipCall
  hip_device_get_attribute hip_device_get_name : ℕ → ℕ → ℕ → HipCall
  hip_malloc : ℕ → ℕ → HipCall
  hip_free : ℕ → HipCall
  hip_host_malloc : ℕ → ℕ → ℕ → HipCall
  hip_host_free : ℕ → HipCall
  hip_mem_get_info : ℕ → ℕ → HipCall
  hip_memcpy : ℕ → ℕ → ℕ → ℕ → HipCall
  hip_memcpy_async : ℕ → ℕ → ℕ → ℕ → ℕ → HipCall
  hip_memset : ℕ → ℕ → ℕ → HipCall
  hip_memset_async : ℕ → ℕ → ℕ → ℕ → HipCall
  hip_stream_create : ℕ → HipCall
  hip_stream_create_with_flags : ℕ → ℕ → HipCall
  hip_stream_destroy hip_stream_synchronize hip_stream_query : ℕ → HipCall
  hip_stream_wait_event : ℕ → ℕ → ℕ → HipCall
  hip_event_create : ℕ → HipCall
  hip_event_create_with_flags : ℕ → ℕ → HipCall
  hip_event_destroy : ℕ → HipCall
  hip_event_record : ℕ → ℕ → HipCall
  hip_event_synchronize hip_event_query : ℕ → HipCall
  hip_event_elapsed_time : ℕ → ℕ → ℕ → HipCall
  hip_module_load hip_module_load_data : ℕ → ℕ → HipCall
  hip_module_unload : ℕ → HipCall
  hip_module_get_function : ℕ → ℕ → ℕ → HipCall
  hip_module_get_global : ℕ → ℕ → ℕ → ℕ → HipCall
  hip_module_launch_kernel : ℕ → Dim3 → Dim3 → ℕ → ℕ → ℕ → ℕ → HipCall
  hip_launch_kernel : ℕ → Dim3 → Dim3 → ℕ → ℕ → ℕ → HipCall
  hip_ext_module_launch_kernel : ℕ → Dim3 → Dim3 → ℕ → ℕ → ℕ → ℕ → ℕ → ℕ → ℕ → HipCall
  hip_register_fat_binary hip_unregister_fat_binary : ℕ → HipCall
  hip_register_function : ℕ → ℕ → ℕ → ℕ → List ℕ → HipCall
  hip_register_var : ℕ → ℕ → ℕ → ℕ → ℕ → ℕ → ℕ → ℕ → HipCall
  hip_get_error_string hip_get_error_name : ℕ → HipCall
  hip_get_last_error hip_peek_at_last_error : HipCall

abbrev pub function_of : HipCall → HipFunction
function_of (hip_init a0) = HipFunction.hip_init
function_of (hip_driver_get_version a0) = HipFunction.hip_driver_get_version
function_of (hip_runtime_get_version a0) = HipFunction.hip_runtime_get_version
function_of (hip_get_device a0) = HipFunction.hip_get_device
function_of (hip_get_device_count a0) = HipFunction.hip_get_device_count
function_of (hip_set_device a0) = HipFunction.hip_set_device
function_of hip_device_reset = HipFunction.hip_device_reset
function_of hip_device_synchronize = HipFunction.hip_device_synchronize
function_of (hip_get_device_properties a0 a1) = HipFunction.hip_get_device_properties
function_of (hip_device_get_attribute a0 a1 a2) = HipFunction.hip_device_get_attribute
function_of (hip_device_get_name a0 a1 a2) = HipFunction.hip_device_get_name
function_of (hip_malloc a0 a1) = HipFunction.hip_malloc
function_of (hip_free a0) = HipFunction.hip_free
function_of (hip_host_malloc a0 a1 a2) = HipFunction.hip_host_malloc
function_of (hip_host_free a0) = HipFunction.hip_host_free
function_of (hip_mem_get_info a0 a1) = HipFunction.hip_mem_get_info
function_of (hip_memcpy a0 a1 a2 a3) = HipFunction.hip_memcpy
function_of (hip_memcpy_async a0 a1 a2 a3 a4) = HipFunction.hip_memcpy_async
function_of (hip_memset a0 a1 a2) = HipFunction.hip_memset
function_of (hip_memset_async a0 a1 a2 a3) = HipFunction.hip_memset_async
function_of (hip_stream_create a0) = HipFunction.hip_stream_create
function_of (hip_stream_create_with_flags a0 a1) = HipFunction.hip_stream_create_with_flags
function_of (hip_stream_destroy a0) = HipFunction.hip_stream_destroy
function_of (hip_stream_synchronize a0) = HipFunction.hip_stream_synchronize
function_of (hip_stream_query a0) = HipFunction.hip_stream_query
function_of (hip_stream_wait_event a0 a1 a2) = HipFunction.hip_stream_wait_event
function_of (hip_event_create a0) = HipFunction.hip_event_create
function_of (hip_event_create_with_flags a0 a1) = HipFunction.hip_event_create_with_flags
function_of (hip_event_destroy a0) = HipFunction.hip_event_destroy
function_of (hip_event_record a0 a1) = HipFunction.hip_event_record
function_of (hip_event_synchronize a0) = HipFunction.hip_event_synchronize
function_of (hip_event_query a0) = HipFunction.hip_event_query
function_of (hip_event_elapsed_time a0 a1 a2) = HipFunction.hip_event_elapsed_time
function_of (hip_module_load a0 a1) = HipFunction.hip_module_load
function_of (hip_module_load_data a0 a1) = HipFunction.hip_module_load_data
function_of (hip_module_unload a0) = HipFunction.hip_module_unload
function_of (hip_module_get_function a0 a1 a2) = HipFunction.hip_module_get_function
function_of (hip_module_get_global a0 a1 a2 a3) = HipFunction.hip_module_get_global
function_of (hip_module_launch_kernel a0 a1 a2 a3 a4 a5 a6) = HipFunction.hip_module_launch_kernel
function_of (hip_launch_kernel a0 a1 a2 a3 a4 a5) = HipFunction.hip_launch_kernel
function_of (hip_ext_module_launch_kernel a0 a1 a2 a3 a4 a5 a6 a7 a8 a9) =
    HipFunction.hip_ext_module_launch_kernel
function_of (hip_register_fat_binary a0) = HipFunction.hip_register_fat_binary
function_of (hip_unregister_fat_binary a0) = HipFunction.hip_unregister_fat_binary
function_of (hip_register_function a0 a1 a2 a3 a4) = HipFunction.hip_register_function
function_of (hip_register_var a0 a1 a2 a3 a4 a5 a6 a7) = HipFunction.hip_register_var
function_of (hip_get_error_string a0) = HipFunction.hip_get_error_string
function_of (hip_get_error_name a0) = HipFunction.hip_get_error_name
function_of hip_get_last_error = HipFunction.hip_get_last_error
function_of hip_peek_at_last_error = HipFunction.hip_peek_at_last_error

-- What a function gives back: an error number, a pointer, nothing, or the text "unknown".
pub data Answer : Type 0 where
  error pointer : ℕ → Answer
  nothing unknown : Answer

pub data ResultKind : Type 0 where
  error_kind pointer_kind text_kind no_kind : ResultKind

abbrev pub kind_of : HipFunction → ResultKind
kind_of HipFunction.hip_register_fat_binary = pointer_kind
kind_of HipFunction.hip_unregister_fat_binary = no_kind
kind_of HipFunction.hip_register_function = no_kind
kind_of HipFunction.hip_register_var = no_kind
kind_of HipFunction.hip_get_error_string = text_kind
kind_of HipFunction.hip_get_error_name = text_kind
kind_of f = error_kind

-- `memcpy_kind_name`.
unfoldable pub memcpy_kind_name : ℕ → String
memcpy_kind_name kind =
    if kind == 0
    then "H2H"
    else if kind == 1
    then "H2D"
    else if kind == 2
    then "D2H"
    else if kind == 3
    then "D2D"
    else if kind == 4
    then "Default"
    else "Unknown"
