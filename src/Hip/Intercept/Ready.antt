-- ===== src/Hip/Intercept/Ready.antt =====
-- Lemmas on the exported functions of crates/hip-intercept/src/lib.rs, before and after the initialization.
use hrx_system_rs.Base.{
  String, ℕ, ◌≡◌, refl, sym, ◌⊎◌, inl, inr, true, false, Bool-cases, Option, if◌then◌else◌, some,
  List, ◌∷◌,
}
use mathlib.Core.Path.{subst}
use hrx_system_rs.Ffi.{◌>>=◌, Env, call, pure}
use hrx_system_rs.Ffi.Ensures.{Ensures, bind, mono}
use hrx_system_rs.Hip.{HipCall, function_of, Answer}
use hrx_system_rs.Hip.Process.{ProcessCall, Symbol, dlsym, DirectCall, invoke, Slots, Process, P}
use hrx_system_rs.Hip.Logging.Entry.{is_wrapped, wrapper_table}
use hrx_system_rs.Hip.Logging.Messages.{Memory}
use hrx_system_rs.Hip.Intercept.{
  Interceptor, Variables, passthrough, backend_sym, forwarded, intercept_init, ensure_init,
  call_once, loaded_table, active, call_slot, through, exported,
}
use hrx_system_rs.Hip.Intercept.Client.{routed, direct, History}
use hrx_system_rs.Hip.Intercept.Routing.{Real, Logs, invoke-Logs, more-Real, forward-Logs}
use hrx_system_rs.Hip.Intercept.Wrappers.{wrapper-Called}
use hrx_system_rs.Hip.Intercept.Loading.{FindsAll}
use hrx_system_rs.Hip.Intercept.Setup.{
  Active, IsLoggingOrNoop, FindsBackend, intercept_init-Started,
}

module _ (e : Env ProcessCall) (memory : List ProcessCall → Memory) where
  -- Initialized, with what the calls so far were answered.
  abbrev pub Ready : History → Process → List ProcessCall → Type 0
  Ready h s t = (s.init_done ≡ true) × ((real : Slots) × Active real s × Real e real t × Logs e h t)

  -- A slot of the real table.
  library_slot-Called :
      (s : Process) (real : Slots) (slots : Slots) (c : HipCall) (h : History)
      (t : List ProcessCall) (v : Variables) (which : ℕ → Interceptor)
      → Real e real t
      → Logs e h t
      → slots (function_of c) ≡ real (function_of c)
      → Ensures
          (λ a s' t'. (s' ≡ s) × Real e real t' × Logs e ((routed c, a) ∷ h) t')
          (call_slot v which memory (slots (function_of c)) c e s t)
  library_slot-Called s real slots c h t v which r l same =
      let (p, held) = r.full (function_of c) in
      rw (same, held) (refl, more-Real e (invoke p c) real t r, invoke-Logs e c p real h t r held l)

  module _ (v : Variables) (which : ℕ → Interceptor) where
    wrapped_slot-Called :
        (s : Process) (real : Slots) (c : HipCall) (h : History) (t : List ProcessCall)
        → s.log_real ≡ some real
        → Real e real t
        → Logs e h t
        → Ensures
            (λ a s' t'. (s' ≡ s) × Real e real t' × Logs e ((routed c, a) ∷ h) t')
            (call_slot v which memory (wrapper_table real (function_of c)) c e s t)
    wrapped_slot-Called s real c h t set r l = elim (Bool-cases (is_wrapped (function_of c))) [
      | inl wrapped ↦ rw wrapped (wrapper-Called e memory s real set c h t r l)
      | inr bare ↦ library_slot-Called s real (wrapper_table real) c h t v which r l (rw bare refl)
    ]

    -- The active table, and a call through it.
    abbrev through_active : HipCall → P Answer
    through_active c = active v which memory >>= λ table. through v which memory table c

    active-Ready :
        (s : Process) (c : HipCall) (h : History) (t : List ProcessCall)
        → Ready h s t
        → Ensures (λ a s' t'. Ready ((routed c, a) ∷ h) s' t') (through_active c e s t)
    active-Ready s c h t (inited, (real, (opened, table), r, l)) =
        let Goal : Option Slots → Type 0 = λ o.
          Ensures (λ a s' t'. Ready ((routed c, a) ∷ h) s' t')
            ((loaded_table v which memory o >>= λ table. through v which memory table c) e s t) in
        elim table [
          | inl bare ↦ subst Goal (sym bare) (
              mono _ _ (call_slot v which memory (real (function_of c)) c e s t)
                (library_slot-Called s real real c h t v which r l refl)
                λ a s' t' k.
                  subst (λ s'. Ready ((routed c, a) ∷ h) s' t') (sym k.0)
                    (inited, (real, (opened, inl bare), k.1, k.2)))
          | inr (wrapped, set) ↦ subst Goal (sym wrapped) (
              mono _ _ (call_slot v which memory (wrapper_table real (function_of c)) c e s t)
                (wrapped_slot-Called s real c h t set r l)
                λ a s' t' k.
                  subst (λ s'. Ready ((routed c, a) ∷ h) s' t') (sym k.0)
                    (inited, (real, (opened, inr (wrapped, set)), k.1, k.2)))
        ]

    pub table-Ready :
        (s : Process) (h : History) (t : List ProcessCall)
        → Ready h s t
        → Ensures (λ o s' t'. Ready h s' t') (active v which memory e s t)
    table-Ready s h t ready =
        let Goal : Option Slots → Type 0 =
          λ o. Ensures (λ o s' t'. Ready h s' t') (loaded_table v which memory o e s t) in
        let (inited, (real, (opened, table), r, l)) = ready in
        elim table [
          | inl bare ↦ subst Goal (sym bare) ready
          | inr (wrapped, set) ↦ subst Goal (sym wrapped) ready
        ]

    -- Before the initialization, or after it.
    abbrev pub Fit : History → Process → List ProcessCall → Type 0
    Fit h s t = ((s.init_done ≡ false) × Logs e h t) ⊎ Ready h s t

    module _ (backend : FindsBackend e v which memory) (finds : FindsAll e)
        (ours : (l : ℕ) → IsLoggingOrNoop (which l)) where
      pub ensure_init-Ready :
          (s : Process) (h : History) (t : List ProcessCall)
          → Fit h s t
          → Ensures (λ u s' t'. Ready h s' t') (ensure_init v which memory e s t)
      unfolding ensure_init
      ensure_init-Ready s h t (inl (fresh, l)) =
          subst (λ b. Ensures (λ u s' t'. Ready h s' t') (call_once v which memory b e s t))
            (sym fresh)
            (bind _ _ (intercept_init v which memory e s t) _
              (intercept_init-Started e v which memory s h t backend finds ours l)
              λ u s' t' (real, k). (refl, (real, k.0, k.1.0, k.1.1)))
      ensure_init-Ready s h t (inr ready) =
          subst (λ b. Ensures (λ u s' t'. Ready h s' t') (call_once v which memory b e s t))
            (sym ready.0) ready

      pub exported-Ready :
          (c : HipCall) (s : Process) (h : History) (t : List ProcessCall)
          → Fit h s t
          → Ensures (λ a s' t'. Ready ((routed c, a) ∷ h) s' t') (exported v which memory c e s t)
      unfolding exported
      exported-Ready c s h t fit =
          bind _ _ (ensure_init v which memory e s t) _ (ensure_init-Ready s h t fit)
            λ u s1 t1 ready. active-Ready s1 c h t1 ready

      -- The pointer of a function outside the table has been looked up last.
      abbrev LookedUp : String → History → ℕ → Process → List ProcessCall → Type 0
      LookedUp name h p s t =
          (lib : ℕ) × (u : List ProcessCall) × ((t ≡ dlsym lib (Symbol.outside name) ∷ u)
            × (p ≡ (e.reply (dlsym lib (Symbol.outside name) ∷ u)).ptr)
            × Ready h s u)

      backend_sym-LookedUp :
          (name : String) (s : Process) (h : History) (t : List ProcessCall)
          → Ready h s t
          → Ensures (LookedUp name h) (backend_sym v which memory name e s t)
      unfolding backend_sym
      backend_sym-LookedUp name s h t ready =
          bind _ _ (ensure_init v which memory e s t) _ (ensure_init-Ready s h t (inr ready))
            λ u s1 t1 (inited, (real, (opened, table), r, l)).
              subst
                (λ missing. Ensures (LookedUp name h) (
                  (if missing
                      then pure 0
                      else (call (dlsym s1.backend_lib (Symbol.outside name)) >>= λ r. pure r.ptr))
                    e s1 t1))
                (sym opened)
                (s1.backend_lib, t1, (refl, refl, (inited, (real, (opened, table), r, l))))

      forwarded-Ready :
          (d : DirectCall) (lib : ℕ) (s : Process) (h : History) (u : List ProcessCall)
          → Ready h s u
          → (let t = dlsym lib (Symbol.outside d.name) ∷ u in
              Ensures
                (λ a s' t'. Ready ((direct d, a) ∷ h) s' t')
                (forwarded v which memory (e.reply t).ptr d e s t))
      forwarded-Ready d lib s h u (inited, (real, a, r, l)) = rw (finds.others lib d.name u) (
        inited,
        (real, a, more-Real e _ real _ (more-Real e _ real u r), forward-Logs e d lib h u l),
      )

      pub passthrough-Ready :
          (d : DirectCall) (s : Process) (h : History) (t : List ProcessCall)
          → Fit h s t
          → Ensures
              (λ a s' t'. Ready ((direct d, a) ∷ h) s' t')
              (passthrough v which memory d e s t)
      unfolding passthrough
      passthrough-Ready d s h t fit =
          bind _ _ (ensure_init v which memory e s t) _ (ensure_init-Ready s h t fit)
            λ u s1 t1 ready.
              bind _ _ (backend_sym v which memory d.name e s1 t1) _
                (backend_sym-LookedUp d.name s1 h t1 ready)
                λ p s2 t2 (lib, u, (same_trace, same_pointer, ready2)).
                  rw (same_trace, same_pointer) (forwarded-Ready d lib s2 h u ready2)
