-- ===== src/Hip/Intercept/Missing.antt =====
-- A slot that the backend does not fill, in crates/hip-intercept/src/lib.rs and in
-- crates/hip-logging/src/lib.rs.
use hrx_system_rs.Base.{
  ◌≡◌, refl, ◌∙◌, ap, true, Bool-cases, inl, inr, ◌||◌, none, some, List, String, ℕ,
}
use hrx_system_rs.Ffi.{Env, Reply, Run, done, fault}
use hrx_system_rs.Hip.{
  HipCall, function_of, kind_of, nothing, hip_get_device_properties, hip_get_last_error,
  hip_peek_at_last_error, hip_register_fat_binary, hip_unregister_fat_binary, hip_register_function,
  hip_register_var,
}
use hrx_system_rs.Hip.Process.{ProcessCall, Slots, Process}
use hrx_system_rs.Hip.Logging.{
  real_call, real_slot, call_target, wrap_plain, wrap_get_device_properties, wrap_last_error,
  wrap_register_fat_binary, wrap_after, wrapper, log_msg,
}
use hrx_system_rs.Hal.{is_null}
use hrx_system_rs.Tracer.{is_above}
use hrx_system_rs.Tracer.Text.{Str}
use hrx_system_rs.Hip.Logging.Entry.{is_wrapped, wrapper_table}
use hrx_system_rs.Hip.Logging.Messages.{Memory}
use hrx_system_rs.Hip.Intercept.{Interceptor, Variables, call_slot, missing}

module _ (e : Env ProcessCall) (memory : List ProcessCall → Memory) (s : Process) (real : Slots)
    (set : s.log_real ≡ some real) (c : HipCall) (empty : real (function_of c) ≡ none) where
  real_call-fault : (t : List ProcessCall) → real_call c e s t ≡ fault
  real_call-fault t =
      ap (λ o. call_target (real_slot o (function_of c)) c e s t) set
      ∙ ap (λ o. call_target o c e s t) empty

  -- A wrapper that starts with the call.
  starts-fault :
      {A : Type 0} (f : Reply → Process → List ProcessCall → Run ProcessCall Process A)
      (t : List ProcessCall)
      → elim (real_call c e s t) [ done r s' t' ↦ f r s' t' | fault ↦ fault ] ≡ fault
  starts-fault f t =
      ap (λ r. elim r [ done r s' t' ↦ f r s' t' | fault ↦ fault ]) (real_call-fault t)

  wrap_plain-fault : (t : List ProcessCall) → wrap_plain memory c e s t ≡ fault
  unfolding wrap_plain
  wrap_plain-fault t = starts-fault _ t

  wrap_last_error-fault :
      (name : String) (t : List ProcessCall) → wrap_last_error memory name c e s t ≡ fault
  unfolding wrap_last_error
  wrap_last_error-fault name t = starts-fault _ t

  -- A fault after a line is printed.
  after_log-fault :
      {A : Type 0} (msg : Str) (f : Process → List ProcessCall → Run ProcessCall Process A)
      (t : List ProcessCall)
      → ((t' : List ProcessCall) → f s t' ≡ fault)
      → elim (log_msg 2 msg e s t) [ done u s' t' ↦ f s' t' | fault ↦ fault ] ≡ fault
  unfolding log_msg
  after_log-fault msg f t faults =
      elim (Bool-cases (is_above 2 s.log.level || is_null s.log.file)) [
        | inl silent ↦ rw silent (faults t)
        | inr loud ↦ rw loud (faults _)
      ]

  wrap_after-fault :
      (line : Memory → Str) (t : List ProcessCall) → wrap_after memory line c e s t ≡ fault
  unfolding wrap_after
  wrap_after-fault line t =
      after_log-fault (line (memory t))
        (λ s' t'. elim (real_call c e s' t') [ done r s' t' ↦ done nothing s' t' | fault ↦ fault ])
        t (starts-fault (λ r s' t'. done nothing s' t'))

module _ (e : Env ProcessCall) (memory : List ProcessCall → Memory) (s : Process) (real : Slots)
    (set : s.log_real ≡ some real) where
  wrapper-fault :
      (c : HipCall) (t : List ProcessCall)
      → real (function_of c) ≡ none
      → wrapper memory c e s t ≡ fault
  unfolding wrapper wrap_get_device_properties wrap_register_fat_binary
  wrapper-fault (hip_get_device_properties prop id) t empty =
      starts-fault e memory s real set (hip_get_device_properties prop id) empty _ t
  wrapper-fault hip_get_last_error t empty =
      wrap_last_error-fault e memory s real set hip_get_last_error empty _ t
  wrapper-fault hip_peek_at_last_error t empty =
      wrap_last_error-fault e memory s real set hip_peek_at_last_error empty _ t
  wrapper-fault (hip_register_fat_binary data_) t empty =
      starts-fault e memory s real set (hip_register_fat_binary data_) empty _ t
  wrapper-fault (hip_unregister_fat_binary handle) t empty =
      wrap_after-fault e memory s real set (hip_unregister_fat_binary handle) empty _ t
  wrapper-fault (hip_register_function handle host device name rest) t empty =
      wrap_after-fault e memory s real set (hip_register_function handle host device name rest)
        empty _ t
  wrapper-fault (hip_register_var handle host device name ext size constant global) t empty =
      wrap_after-fault e memory s real set
        (hip_register_var handle host device name ext size constant global) empty _ t
  wrapper-fault c t empty = wrap_plain-fault e memory s real set c empty t

  -- x
  pub call_slot-missing :
      (v : Variables) (which : ℕ → Interceptor) (c : HipCall) (t : List ProcessCall)
      → real (function_of c) ≡ none
      → is_wrapped (function_of c) ≡ true
      → (call_slot v which memory (real (function_of c)) c e s t
          ≡ done (missing (kind_of (function_of c))) s t)
        × (call_slot v which memory (wrapper_table real (function_of c)) c e s t ≡ fault)
  call_slot-missing v which c t empty wrapped =
      (rw empty refl, rw wrapped (wrapper-fault c t empty))
