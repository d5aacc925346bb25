-- ===== src/Hip/Intercept/Wrappers.antt =====
-- Lemmas on the wrappers of crates/hip-logging/src/lib.rs: the call that each makes on the real function,
-- and the lines that it prints.
use hrx_system_rs.Base.{
  ℕ, ◌≡◌, refl, sym, ◌∙◌, ap, inl, inr, Bool, true, false, not, ◌&&◌, Bool-cases, Option, none,
  some, List, ◌∷◌, ◌==◌, String,
}
use mathlib.Core.Path.{subst}
use hrx_system_rs.Ffi.{◌>>=◌, ◌>>◌, pure, Env, Reply, Run, done, fault}
use hrx_system_rs.Ffi.Ensures.{Ensures, bind, mono}
use hrx_system_rs.Hal.{is_null}
use hrx_system_rs.Tracer.Text.{Str}
use hrx_system_rs.Hip.Logging.Text.{cstr}
use hrx_system_rs.Hip.{
  HipCall, function_of, kind_of, Answer, error, pointer, nothing, hip_get_device_properties,
  hip_get_last_error, hip_peek_at_last_error, hip_register_fat_binary, hip_unregister_fat_binary,
  hip_register_function, hip_register_var, error_kind, no_kind,
}
use hrx_system_rs.Hip.Process.{ProcessCall, invoke, Slots, Process, P}
use hrx_system_rs.Hip.Logging.{
  log_msg, log_message, log_device_name, name_line, fields_line, device_properties_line,
  log_device_properties, log_last_error, fat_binary_line, real_call, real_slot, call_target,
  log_message, answer_of, wrap_plain, wrap_get_device_properties, wrap_last_error,
  wrap_register_fat_binary, wrap_after, wrapper,
}
use hrx_system_rs.Hip.Logging.Messages.{Memory, message}
use hrx_system_rs.Hip.Intercept.Client.{routed, History}
use hrx_system_rs.Hip.Intercept.Routing.{Real, Logs, Keeps, log_msg-Keeps, invoke-Logs, more-Real}

module _ (e : Env ProcessCall) (memory : List ProcessCall → Memory) (s : Process) (real : Slots)
    (set : s.log_real ≡ some real) where
  -- The call is in the history with the answer, and nothing else of the process has changed.
  abbrev pub Called : HipCall → History → Answer → Process → List ProcessCall → Type 0
  Called c h a s' t = (s' ≡ s) × Real e real t × Logs e ((routed c, a) ∷ h) t

  abbrev the_answer : HipCall → Reply → Answer
  the_answer c r = answer_of (kind_of (function_of c)) r

  real_call-Called :
      (c : HipCall) (h : History) (t : List ProcessCall)
      → Real e real t
      → Logs e h t
      → Ensures (λ r s' t'. Called c h (the_answer c r) s' t') (real_call c e s t)
  real_call-Called c h t r l =
      let (p, found) = r.full (function_of c) in
      subst (Ensures (λ r s' t'. Called c h (the_answer c r) s' t'))
        (sym (
          ap (λ o. call_target (real_slot o (function_of c)) c e s t) set
          ∙ ap (λ o. call_target o c e s t) found))
        (refl, more-Real e (invoke p c) real t r, invoke-Logs e c p real h t r found l)

  -- Logging changes nothing but the log.
  abbrev LogsOnly : P (Unit {0}) → Type 0
  LogsOnly f =
      (s : Process) (h : History) (t : List ProcessCall)
      → Real e real t
      → Logs e h t
      → Ensures (Keeps e s real h) (f e s t)

  log_msg-LogsOnly : (level : ℕ) (msg : Str) → LogsOnly (log_msg level msg)
  log_msg-LogsOnly level msg s h t r l = log_msg-Keeps e level msg s real h t r l

  then-LogsOnly : (f g : P (Unit {0})) → LogsOnly f → LogsOnly g → LogsOnly (f >> g)
  then-LogsOnly f g first second s h t r l =
      bind (Keeps e s real h) (Keeps e s real h) (f e s t) (λ u s t. g e s t) (first s h t r l)
        λ u s' t' k.
          mono (Keeps e s' real h) (Keeps e s real h) (g e s' t') (second s' h t' k.1 k.2)
            λ u s'' t'' k'. (k'.0 ∙ k.0, k'.1, k'.2)

  log_device_name-LogsOnly : (named : Bool) (name : Str) → LogsOnly (log_device_name named name)
  log_device_name-LogsOnly true name s h t r l =
      then-LogsOnly (log_msg 2 (name_line name)) (log_msg 2 fields_line)
        (log_msg-LogsOnly 2 (name_line name)) (log_msg-LogsOnly 2 fields_line) s h t r l
  log_device_name-LogsOnly false name s h t r l = (refl, r, l)

  log_last_error-LogsOnly : (name : String) (ret : ℕ) → LogsOnly (log_last_error name ret)
  log_last_error-LogsOnly name ret s h t r l = elim (Bool-cases (not (ret == 0))) [
    | inl bad ↦ rw bad (log_msg-Keeps e 1 _ s real h t r l)
    | inr good ↦ rw good (log_msg-Keeps e 3 _ s real h t r l)
  ]

  log_message-LogsOnly : (msg : Option Str) → LogsOnly (log_message msg)
  log_message-LogsOnly none s h t r l = (refl, r, l)
  log_message-LogsOnly (some msg) s h t r l = log_msg-LogsOnly 2 msg s h t r l

  log-Called :
      (c : HipCall) (h : History) (a : Answer) (f : P (Unit {0})) (s' : Process)
      (t : List ProcessCall)
      → LogsOnly f
      → Called c h a s' t
      → Ensures (Called c h) ((f >>= λ u. pure a) e s' t)
  log-Called c h a f s' t quiet k =
      bind (Keeps e s' real ((routed c, a) ∷ h)) (Called c h) (f e s' t) (λ u s'' t'. done a s'' t')
        (quiet s' ((routed c, a) ∷ h) t k.1 k.2) λ u s'' t' kept. (kept.0 ∙ k.0, kept.1, kept.2)

  -- A wrapper goes on after the call.
  after_call :
      (c : HipCall) (h : History) (t : List ProcessCall)
      (f : Reply → Process → List ProcessCall → Run ProcessCall Process Answer)
      → Real e real t
      → Logs e h t
      → ((r : Reply) (s' : Process) (t' : List ProcessCall)
          → Called c h (the_answer c r) s' t'
          → Ensures (Called c h) (f r s' t'))
      → Ensures (Called c h) (elim (real_call c e s t) [ done r s' t' ↦ f r s' t' | fault ↦ fault ])
  after_call c h t f r l next =
      bind (λ r s' t'. Called c h (the_answer c r) s' t') (Called c h) (real_call c e s t) f
        (real_call-Called c h t r l) next

  wrap_plain-Called :
      (c : HipCall) (h : History) (t : List ProcessCall)
      → Real e real t
      → Logs e h t
      → Ensures (Called c h) (wrap_plain memory c e s t)
  unfolding wrap_plain
  wrap_plain-Called c h t r l = after_call c h t _ r l λ x s' t' k.
      log-Called c h (the_answer c x) (log_message (message (memory t') c x.num)) s' t'
        (log_message-LogsOnly (message (memory t') c x.num)) k

  wrap_get_device_properties-Called :
      (prop id : ℕ) (h : History) (t : List ProcessCall)
      → Real e real t
      → Logs e h t
      → Ensures
          (Called (hip_get_device_properties prop id) h)
          (wrap_get_device_properties memory prop id e s t)
  unfolding wrap_get_device_properties
  wrap_get_device_properties-Called prop id h t r l =
      let c : HipCall = hip_get_device_properties prop id in
      after_call c h t _ r l λ x s' t' k.
        let line = log_msg 2 (device_properties_line id x.num) in
        let named = (x.num == 0) && not (is_null prop) in
        let name = cstr prop ((memory t').text prop) in
        log-Called c h (error x.num) (log_device_properties prop id x.num (memory t')) s' t'
          (then-LogsOnly line (log_device_name named name)
            (log_msg-LogsOnly 2 (device_properties_line id x.num))
            (log_device_name-LogsOnly named name))
          k

  wrap_last_error-Called :
      (name : String) (c : HipCall) (h : History) (t : List ProcessCall)
      → kind_of (function_of c) ≡ error_kind
      → Real e real t
      → Logs e h t
      → Ensures (Called c h) (wrap_last_error memory name c e s t)
  unfolding wrap_last_error
  wrap_last_error-Called name c h t kind r l = after_call c h t _ r l λ x s' t' k.
      log-Called c h (error x.num) (log_last_error name x.num) s' t'
        (log_last_error-LogsOnly name x.num) (rw kind at k)

  wrap_register_fat_binary-Called :
      (data_ : ℕ) (h : History) (t : List ProcessCall)
      → Real e real t
      → Logs e h t
      → Ensures
          (Called (hip_register_fat_binary data_) h)
          (wrap_register_fat_binary memory data_ e s t)
  unfolding wrap_register_fat_binary
  wrap_register_fat_binary-Called data_ h t r l =
      let c : HipCall = hip_register_fat_binary data_ in
      after_call c h t _ r l λ x s' t' k.
        log-Called c h (pointer x.ptr) (log_msg 2 (fat_binary_line data_ x.ptr)) s' t'
          (log_msg-LogsOnly 2 (fat_binary_line data_ x.ptr)) k

  -- The line is printed before the call.
  wrap_after-Called :
      (line : Memory → Str) (c : HipCall) (h : History) (t : List ProcessCall)
      → kind_of (function_of c) ≡ no_kind
      → Real e real t
      → Logs e h t
      → Ensures (Called c h) (wrap_after memory line c e s t)
  unfolding wrap_after
  wrap_after-Called line c h t kind r l =
      bind (Keeps e s real h) (Called c h) (log_msg 2 (line (memory t)) e s t) _
        (log_msg-Keeps e 2 (line (memory t)) s real h t r l)
        λ u s' t' k.
          subst
            (λ s'.
              Ensures (Called c h)
                (elim (real_call c e s' t') [ done x s' t' ↦ done nothing s' t' | fault ↦ fault ]))
            (sym k.0)
            (after_call c h t' (λ x s' t'. done nothing s' t') k.1 k.2 λ x s' t' k. (rw kind at k))

  -- Whichever function is wrapped.
  pub wrapper-Called :
      (c : HipCall) (h : History) (t : List ProcessCall)
      → Real e real t
      → Logs e h t
      → Ensures (Called c h) (wrapper memory c e s t)
  unfolding wrapper
  wrapper-Called (hip_get_device_properties prop id) h t r l =
      wrap_get_device_properties-Called prop id h t r l
  wrapper-Called hip_get_last_error h t r l =
      wrap_last_error-Called _ hip_get_last_error h t refl r l
  wrapper-Called hip_peek_at_last_error h t r l =
      wrap_last_error-Called _ hip_peek_at_last_error h t refl r l
  wrapper-Called (hip_register_fat_binary data_) h t r l =
      wrap_register_fat_binary-Called data_ h t r l
  wrapper-Called (hip_unregister_fat_binary handle) h t r l =
      wrap_after-Called _ (hip_unregister_fat_binary handle) h t refl r l
  wrapper-Called (hip_register_function handle host device name rest) h t r l =
      wrap_after-Called _ (hip_register_function handle host device name rest) h t refl r l
  wrapper-Called (hip_register_var handle host device name ext size constant global) h t r l =
      wrap_after-Called _ (hip_register_var handle host device name ext size constant global) h t
        refl r l
  wrapper-Called c h t r l = wrap_plain-Called c h t r l
