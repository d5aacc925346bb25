-- ===== src/Objects/Executable/Loading.antt =====
-- crates/hrx-libhrx/src/executable.rs: what the loading of an executable holds in the end.
use hrx_system_rs.Base.{
  ℕ, ◌≡◌, ◌≢◌, ◌==◌, if◌then◌else◌, false, Option, none, some, List, ◌∷◌, arith,
}
use hrx_system_rs.Ffi.{Env, Reply, done}
use hrx_system_rs.Ffi.Ensures.{Ensures, bind}
use hrx_system_rs.Ffi.Kinds.{Kind, held, when_ok}
use hrx_system_rs.Status.{hrx_status_from_iree, hrx_make_status, hrx_code_from_iree}
use hrx_system_rs.Objects.{
  ObjectCall, executable_cache_create, executable_cache_release, executable_release,
  prepare_executable, fopen, fread, fclose, malloc_uninitialized, allocator_free,
}
use hrx_system_rs.Objects.Executable.{HrxExecutableS, CString, hrx_executable_load_data}
use hrx_system_rs.Objects.Executable.LoadFile.{load_and_free, read_file, hrx_executable_load_file}

-- Executables and their caches, each a kind of pointer.
abbrev opens_object : ObjectCall → Reply → Option ℕ
opens_object (executable_cache_create d) r = when_ok r.status r.ptr
opens_object _ r = none

abbrev closes_object : ObjectCall → Option ℕ
closes_object (executable_cache_release c) = some c
closes_object _ = none

abbrev pub caches : Kind ObjectCall
caches = record { opens = opens_object; closes = closes_object }

abbrev opens_executable : ObjectCall → Reply → Option ℕ
opens_executable (prepare_executable c p) r = when_ok r.status r.ptr
opens_executable _ r = none

abbrev closes_executable : ObjectCall → Option ℕ
closes_executable (executable_release x) = some x
closes_executable _ = none

abbrev pub executables : Kind ObjectCall
executables = record { opens = opens_executable; closes = closes_executable }

abbrev unless_null : ℕ → Option ℕ
unless_null p = if p == 0 then none else some p

abbrev opens_file : ObjectCall → Reply → Option ℕ
opens_file (fopen path) r = unless_null r.ptr
opens_file _ r = none

abbrev closes_file : ObjectCall → Option ℕ
closes_file (fclose f) = some f
closes_file _ = none

abbrev pub files : Kind ObjectCall
files = record { opens = opens_file; closes = closes_file }

abbrev opens_memory : ObjectCall → Reply → Option ℕ
opens_memory (malloc_uninitialized n) r = when_ok r.status r.ptr
opens_memory _ r = none

abbrev closes_memory : ObjectCall → Option ℕ
closes_memory (allocator_free p) = some p
closes_memory _ = none

abbrev pub memory : Kind ObjectCall
memory = record { opens = opens_memory; closes = closes_memory }

-- A creation that succeeds makes an object, as IREE documents.
abbrev Creates : ObjectCall → Type 0 → Type 0
Creates (executable_cache_create d) P = P
Creates (prepare_executable c p) P = P
Creates _ P = Unit {0}

abbrev pub MakesExecutables : Env ObjectCall → Type 0
MakesExecutables e =
    (c : ObjectCall) (t : List ObjectCall)
    → (e.reply (c ∷ t)).status ≡ none
    → Creates c ((e.reply (c ∷ t)).ptr ≢ 0)

abbrev pub caches_of : Option HrxExecutableS → List ℕ → List ℕ
caches_of none cs = cs
caches_of (some x) cs = x.hal_executable_cache ∷ cs

abbrev pub executables_of : Option HrxExecutableS → List ℕ → List ℕ
executables_of none xs = xs
executables_of (some x) xs = x.hal_executable ∷ xs

-- The caches, executables, files and blocks of memory that a trace holds, besides those of the object.
pub record Holds (e : Env ObjectCall) (cs xs fs bs : List ℕ) (made : Option HrxExecutableS)
    (t : List ObjectCall) : Type 0 where
  pub same_caches : held caches e t ≡ some (caches_of made cs)
  pub same_executables : held executables e t ≡ some (executables_of made xs)
  pub same_files : held files e t ≡ some fs
  pub same_memory : held memory e t ≡ some bs

module _ (hal_device : ℕ → ℕ) (e : Env ObjectCall) {S : Type 0} (s : S) (device : ℕ)
    (executable_format : CString) (executable : ℕ) (makes : MakesExecutables e) where
  load_data-Holds :
      (cs xs fs bs : List ℕ) (executable_data executable_data_size : ℕ) (t : List ObjectCall)
      → Holds e cs xs fs bs none t
      → Ensures
          (λ made _ t'. Holds e cs xs fs bs made.1 t')
          (hrx_executable_load_data hal_device device executable_data executable_data_size
            executable_format executable e s t)
  unfolding hrx_executable_load_data
  load_data-Holds cs xs fs bs p n t h = grind (arith, makes)

  module _ (cs xs fs bs : List ℕ) (room : (t : List ObjectCall) → e.malloc_fails t ≡ false) where
    load_and_free-Holds :
        (block file_size : ℕ) (t : List ObjectCall)
        → Holds e cs xs fs (block ∷ bs) none t
        → Ensures
            (λ made _ t'. Holds e cs xs fs bs made.1 t')
            (load_and_free hal_device device block file_size executable_format executable e s t)
    unfolding load_and_free
    load_and_free-Holds block file_size t h =
        bind (λ made _ t'. Holds e cs xs fs (block ∷ bs) made.1 t')
          (λ made _ t'. Holds e cs xs fs bs made.1 t')
          (hrx_executable_load_data hal_device device block file_size executable_format executable e
            s t)
          (λ made s' t'. done made s' (allocator_free block ∷ t'))
          (load_data-Holds cs xs fs (block ∷ bs) block file_size t h) λ made s' t' h. ground arith

    read_file-Holds :
        (file file_size : ℕ) (t : List ObjectCall)
        → Holds e cs xs (file ∷ fs) bs none t
        → Ensures
            (λ made _ t'. Holds e cs xs fs bs made.1 t')
            (read_file hal_device device file file_size executable_format executable e s t)
    unfolding read_file hrx_status_from_iree hrx_make_status hrx_code_from_iree
    read_file-Holds file file_size t h =
        let c = malloc_uninitialized file_size in
        let block = (e.reply (c ∷ t)).ptr in
        ground (
          arith,
          room (c ∷ t),
          load_and_free-Holds block file_size (fclose file ∷ fread block file_size file ∷ c ∷ t),
        )

    -- Loading an executable from a file never faults when a successful creation makes an object and
    -- payload allocations do not fail. On every path the file is closed and the memory that it was read
    -- into is freed, and the executables and their caches are those held before and the new one with its
    -- cache, when there is one.
    pub hrx_executable_load_file-Holds :
        (path : CString) (t : List ObjectCall)
        → Holds e cs xs fs bs none t
        → Ensures
            (λ made _ t'. Holds e cs xs fs bs made.1 t')
            (hrx_executable_load_file hal_device device path executable_format executable e s t)
    unfolding hrx_executable_load_file
    hrx_executable_load_file-Holds path t h = grind (arith, read_file-Holds)
