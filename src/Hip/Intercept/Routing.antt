-- ===== src/Hip/Intercept/Routing.antt =====
-- What a run of crates/hip-intercept/src/lib.rs asks the functions behind its pointers, and where the
-- pointers come from.
use hrx_system_rs.Base.{ℕ, ◌≡◌, refl, ◌⊎◌, inl, inr, ◌||◌, Bool-cases, some, List, [], ◌∷◌}
use hrx_system_rs.Ffi.{Env, Reply}
use hrx_system_rs.Ffi.Ensures.{Ensures}
use hrx_system_rs.Hal.{is_null}
use hrx_system_rs.Tracer.{is_above}
use hrx_system_rs.Tracer.Text.{Str}
use hrx_system_rs.Hip.{HipFunction, HipCall, function_of, kind_of}
use hrx_system_rs.Hip.Process.{
  ProcessCall, Symbol, dlsym, invoke, forward, DirectCall, clock_gettime, fflush, library, Slots,
  Process,
}
use hrx_system_rs.Hip.Logging.{log_msg, answer_of}
use hrx_system_rs.Hip.Intercept.Client.{routed, direct, History}

abbrev reply_step : ProcessCall → Reply → History → History
reply_step (invoke f c) r h = (routed c, answer_of (kind_of (function_of c)) r) ∷ h
reply_step (forward f d) r h = (direct d, answer_of d.kind r) ∷ h
reply_step _ r h = h

-- What the functions behind pointers were called with, and answered.
abbrev pub replies : Env ProcessCall → List ProcessCall → History
replies e [] = []
replies e (c ∷ t) = reply_step c (e.reply (c ∷ t)) (replies e t)

abbrev IsAnswer : ProcessCall → Reply → ℕ → Symbol → Type 0
IsAnswer (dlsym lib g) r p f = (g ≡ f) × (r.ptr ≡ p)
IsAnswer _ r p f = ⊥

-- The pointer was looked up under the name of the function.
abbrev pub Resolved : Env ProcessCall → ℕ → Symbol → List ProcessCall → Type 0
Resolved e p f [] = ⊥
Resolved e p f (c ∷ t) = IsAnswer c (e.reply (c ∷ t)) p f ⊎ Resolved e p f t

abbrev RoutedStep : Env ProcessCall → ProcessCall → List ProcessCall → Type 0
RoutedStep e (invoke p c) t = Resolved e p (Symbol.function (function_of c)) t
RoutedStep e (forward p d) t = Resolved e p (Symbol.outside d.name) t
RoutedStep e _ t = Unit {0}

-- Every call went to a pointer that was looked up under the name of its function before.
abbrev pub Routed : Env ProcessCall → List ProcessCall → Type 0
Routed e [] = Unit {0}
Routed e (c ∷ t) = RoutedStep e c t × Routed e t

abbrev pub IsQuiet : ProcessCall → Type 0
IsQuiet (invoke p c) = ⊥
IsQuiet (forward p d) = ⊥
IsQuiet _ = Unit {0}

-- The real table holds functions that were looked up under their names.
pub record Real (e : Env ProcessCall) (real : Slots) (t : List ProcessCall) : Type 0 where
  pub full : (f : HipFunction) → (p : ℕ) × (real f ≡ some (library p))
  pub resolved :
      (f : HipFunction) (p : ℕ) → real f ≡ some (library p) → Resolved e p (Symbol.function f) t

pub record Logs (e : Env ProcessCall) (h : History) (t : List ProcessCall) : Type 0 where
  pub same : replies e t ≡ h
  pub by_name : Routed e t

module _ (e : Env ProcessCall) where
  pub quiet-Logs :
      (c : ProcessCall) (h : History) (t : List ProcessCall)
      → IsQuiet c
      → Logs e h t
      → Logs e h (c ∷ t)
  quiet-Logs (invoke p c) h t q l = absurd q
  quiet-Logs (forward p d) h t q l = absurd q
  quiet-Logs (fflush f) h t q l = record { same = l.same; by_name = (tt, l.by_name) }
  quiet-Logs c h t q l = record { same = l.same; by_name = (tt, l.by_name) }

  pub more-Real :
      (c : ProcessCall) (real : Slots) (t : List ProcessCall) → Real e real t → Real e real (c ∷ t)
  more-Real c real t r = record { full = r.full; resolved = λ f p h. inr (r.resolved f p h) }

  -- The call is made on the real function.
  pub invoke-Logs :
      (c : HipCall) (p : ℕ) (real : Slots) (h : History) (t : List ProcessCall)
      → Real e real t
      → real (function_of c) ≡ some (library p)
      → Logs e h t
      → Logs e
          ((routed c, answer_of (kind_of (function_of c)) (e.reply (invoke p c ∷ t))) ∷ h)
          (invoke p c ∷ t)
  invoke-Logs c p real h t r found l = record {
    same = rw l.same;
    by_name = (r.resolved (function_of c) p found, l.by_name);
  }

  -- A function outside the table, by a pointer that was just looked up.
  pub forward-Logs :
      (d : DirectCall) (lib : ℕ) (h : History) (t : List ProcessCall)
      → Logs e h t
      → (let u = dlsym lib (Symbol.outside d.name) ∷ t in
          let c = forward (e.reply u).ptr d in
          Logs e ((direct d, answer_of d.kind (e.reply (c ∷ u))) ∷ h) (c ∷ u))
  forward-Logs d lib h t l = record {
    same = rw l.same refl;
    by_name = (inl (refl, refl), (tt, l.by_name));
  }

  abbrev pub Keeps :
      Process → Slots → History → {A : Type 0} → A → Process → List ProcessCall → Type 0
  Keeps s real h a s' t = (s' ≡ s) × Real e real t × Logs e h t

  pub log_msg-Keeps :
      (level : ℕ) (msg : Str) (s : Process) (real : Slots) (h : History) (t : List ProcessCall)
      → Real e real t
      → Logs e h t
      → Ensures (Keeps s real h) (log_msg level msg e s t)
  unfolding log_msg
  log_msg-Keeps level msg s real h t r l =
      elim (Bool-cases (is_above level s.log.level || is_null s.log.file)) [
        | inl silent ↦ rw silent (refl, r, l)
        | inr loud ↦ rw loud (
          refl,
          more-Real _ real _ (more-Real _ real _ (more-Real clock_gettime real t r)),
          quiet-Logs _ h _ tt (quiet-Logs _ h _ tt (quiet-Logs clock_gettime h t tt l)),
        )
      ]
