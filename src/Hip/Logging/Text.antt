-- ===== src/Hip/Logging/Text.antt =====
-- crates/hip-logging/src/lib.rs: the text of the log lines. A string is the list of its characters.
use Prim.Native.Char.{code}
use hrx_system_rs.Base.{
  ℕ, zero, suc, ◌-◌, ◌^◌, Option, none, some, List, [], ◌∷◌, ◌++◌, ltb, ◌==◌, if◌then◌else◌, String,
  ℤ, pos, negsuc,
}
use hrx_system_rs.Hal.{is_null}
use hrx_system_rs.Tracer.Text.{Str, decimal, hex}

abbrev pub codes : String → Str
codes String.[] = []
codes (String.◌∷◌ c s) = code c ∷ codes s

abbrev pub concat : List Str → Str
concat [] = []
concat (piece ∷ pieces) = piece ++ concat pieces

-- `{}` of an `i32`, from its bits, and of a `ℤ`.
abbrev pub signed : ℕ → Str
signed n = if ltb n (2 ^ 31) then decimal n else b'-' ∷ decimal (2 ^ 32 - n)

abbrev pub decimal_int : ℤ → Str
decimal_int (pos n) = decimal n
decimal_int (negsuc n) = b'-' ∷ decimal (suc n)

-- `{:02x}` of an `i32`, from its bits.
abbrev pub hex_padded : ℕ → Str
hex_padded n = if ltb n 16 then b'0' ∷ hex n else hex n

-- `{:06}` of a number.
abbrev zeros : ℕ → ℕ → Str
zeros zero n = []
zeros (suc k) n = if ltb n (10 ^ suc k) then b'0' ∷ zeros k n else []

abbrev pub six_digits : ℕ → Str
six_digits n = zeros 5 n ++ decimal n

-- `cstr`: the text behind a pointer, when it is read.
abbrev pub cstr : ℕ → Str → Str
cstr ptr text = if is_null ptr then codes "(null)" else text

abbrev attribute : ℕ → Option String
attribute attr =
    if attr == 0
    then some "MaxThreadsPerBlock"
    else if attr == 1
    then some "MaxBlockDimX"
    else if attr == 2
    then some "MaxBlockDimY"
    else if attr == 3
    then some "MaxBlockDimZ"
    else if attr == 4
    then some "MaxGridDimX"
    else if attr == 5
    then some "MaxGridDimY"
    else if attr == 6
    then some "MaxGridDimZ"
    else if attr == 7
    then some "MaxSharedMemoryPerBlock"
    else if attr == 8
    then some "TotalConstantMemory"
    else if attr == 9
    then some "WarpSize"
    else if attr == 10
    then some "MaxRegistersPerBlock"
    else if attr == 11
    then some "ClockRate"
    else if attr == 15
    then some "MemoryClockRate"
    else if attr == 16
    then some "MemoryBusWidth"
    else if attr == 17
    then some "MultiProcessorCount"
    else if attr == 19
    then some "ComputeCapabilityMajor"
    else if attr == 20
    then some "ComputeCapabilityMinor"
    else if attr == 21
    then some "L2CacheSize"
    else if attr == 22
    then some "MaxThreadsPerMultiProcessor"
    else if attr == 24
    then some "ConcurrentKernels"
    else if attr == 28
    then some "PCIBusId"
    else if attr == 29
    then some "PCIDeviceId"
    else if attr == 32
    then some "MaxSharedMemoryPerMultiprocessor"
    else if attr == 43
    then some "IsMultiGpuBoard"
    else if attr == 70
    then some "CooperativeLaunch"
    else if attr == 71
    then some "CooperativeMultiDeviceLaunch"
    else if attr == 87
    then some "PageableMemoryAccess"
    else if attr == 95
    then some "ManagedMemory"
    else if attr == 96
    then some "DirectManagedMemAccessFromHost"
    else if attr == 100
    then some "ConcurrentManagedAccess"
    else if attr == 101
    then some "PageableMemoryAccessUsesHostPageTables"
    else if attr == 1000
    then some "GCN_ARCH"
    else if attr == 1003
    then some "GCN_ARCH_NAME"
    else none

abbrev or_number : Option String → ℕ → Str
or_number (some name) attr = codes name
or_number none attr = codes "attr_" ++ decimal attr

unfoldable pub device_attribute_name : ℕ → Str
device_attribute_name attr = or_number (attribute attr) attr
