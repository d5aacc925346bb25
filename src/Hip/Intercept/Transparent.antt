-- ===== src/Hip/Intercept/Transparent.antt =====
-- crates/hip-intercept/src/lib.rs with crates/hip-logging/src/lib.rs or crates/hip-noop/src/lib.rs, over any
-- sequence of calls.
use hrx_system_rs.Base.{ℕ, ◌≡◌, refl, sym, ◌∙◌, ap, inl, inr, List, [], ◌∷◌, map}
use hrx_system_rs.Ffi.{Env}
use hrx_system_rs.Ffi.Ensures.{Ensures, bind, mono}
use hrx_system_rs.Hip.Process.{ProcessCall, Process, new_process}
use hrx_system_rs.Hip.Logging.Messages.{Memory}
use hrx_system_rs.Hip.Intercept.{
  Interceptor, Variables, passthrough, ensure_init, exported, hip_passthrough_get_real_table,
  hip_passthrough_get_active_table,
}
use hrx_system_rs.Hip.Intercept.Client.{
  Request, routed, direct, outside_table, HipOp, hip, get_real_table, get_active_table, History,
  step, run,
}
use hrx_system_rs.Hip.Intercept.Routing.{replies, Routed}
use hrx_system_rs.Hip.Intercept.Loading.{FindsAll}
use hrx_system_rs.Hip.Intercept.Ready.{
  Ready, Fit, table-Ready, ensure_init-Ready, exported-Ready, passthrough-Ready,
}
use hrx_system_rs.Hip.Intercept.Setup.{IsLoggingOrNoop, FindsBackend}

-- The HIP calls that a sequence asks for, the last one first, after those of a list.
abbrev pub asked : List HipOp → List Request → List Request
asked [] cs = cs
asked (hip c ∷ ops) cs = asked ops (routed c ∷ cs)
asked (outside_table d ∷ ops) cs = asked ops (direct d ∷ cs)
asked (get_real_table ∷ ops) cs = asked ops cs
asked (get_active_table ∷ ops) cs = asked ops cs

asked-cons :
    (op : HipOp) (ops : List HipOp) (cs : List Request)
    → asked (op ∷ ops) cs ≡ asked ops (asked (op ∷ []) cs)
asked-cons (hip c) ops cs = refl
asked-cons (outside_table d) ops cs = refl
asked-cons get_real_table ops cs = refl
asked-cons get_active_table ops cs = refl

abbrev pub calls_of : History → List Request
calls_of h = map (λ x. x.0) h

module _ (e : Env ProcessCall) (memory : List ProcessCall → Memory) (v : Variables)
    (which : ℕ → Interceptor) (backend : FindsBackend e v which memory) (finds : FindsAll e)
    (ours : (l : ℕ) → IsLoggingOrNoop (which l)) where
  -- The history of an operation holds its call.
  abbrev Followed : List HipOp → History → History → Process → List ProcessCall → Type 0
  Followed ops h g s t = Fit e memory v which g s t × (calls_of g ≡ asked ops (calls_of h))

  step-Followed :
      (op : HipOp) (s : Process) (h : History) (t : List ProcessCall)
      → Fit e memory v which h s t
      → Ensures (Followed (op ∷ []) h) (step v which memory op h e s t)
  unfolding step hip_passthrough_get_real_table hip_passthrough_get_active_table
  step-Followed (hip c) s h t fit =
      bind (λ a s' t'. Ready e memory ((routed c, a) ∷ h) s' t') (Followed (hip c ∷ []) h)
        (exported v which memory c e s t) _
        (exported-Ready e memory v which backend finds ours c s h t fit) λ a s2 t2 k. (inr k, refl)
  step-Followed (outside_table d) s h t fit =
      bind (λ a s' t'. Ready e memory ((direct d, a) ∷ h) s' t') (Followed (outside_table d ∷ []) h)
        (passthrough v which memory d e s t) _
        (passthrough-Ready e memory v which backend finds ours d s h t fit)
        λ a s2 t2 k. (inr k, refl)
  step-Followed get_real_table s h t fit =
      bind (λ u s' t'. Ready e memory h s' t') (Followed (get_real_table ∷ []) h)
        (hip_passthrough_get_real_table v which memory e s t) _
        (bind _ _ (ensure_init v which memory e s t) _
          (ensure_init-Ready e memory v which backend finds ours s h t fit) λ u s1 t1 ready. ready)
        λ a s2 t2 k. (inr k, refl)
  step-Followed get_active_table s h t fit =
      bind (λ u s' t'. Ready e memory h s' t') (Followed (get_active_table ∷ []) h)
        (hip_passthrough_get_active_table v which memory e s t) _
        (bind _ _ (ensure_init v which memory e s t) _
          (ensure_init-Ready e memory v which backend finds ours s h t fit)
          λ u s1 t1 ready. table-Ready e memory v which s1 h t1 ready)
        λ a s2 t2 k. (inr k, refl)

  run-Followed :
      (ops : List HipOp) (s : Process) (h : History) (t : List ProcessCall)
      → Fit e memory v which h s t
      → Ensures (Followed ops h) (run v which memory ops h e s t)
  unfolding run
  run-Followed [] s h t fit = (fit, refl)
  run-Followed (op ∷ ops) s h t fit =
      bind (Followed (op ∷ []) h) (Followed (op ∷ ops) h) (step v which memory op h e s t) _
        (step-Followed op s h t fit)
        λ g s1 t1 k.
          mono (Followed ops g) (Followed (op ∷ ops) h) (run v which memory ops g e s1 t1)
            (run-Followed ops s1 g t1 k.0)
            λ g' s2 t2 k'. (k'.0, k'.1 ∙ ap (asked ops) k.1 ∙ sym (asked-cons op ops (calls_of h)))

-- A program that makes any sequence of HIP calls through the interception layer, of the table and
-- outside it, gets what the backend's functions answer: from the start of the process the layer makes
-- exactly the calls asked for, in their order, each on a pointer that was looked up under the function's
-- name, and returns each answer, with hip-logging, with hip-noop or without an interceptor. The backend and
-- all of its functions are found, and no other interceptor is loaded.
pub run-Transparent :
    (v : Variables) (which : ℕ → Interceptor) (memory : List ProcessCall → Memory)
    (e : Env ProcessCall) (ops : List HipOp)
    → FindsBackend e v which memory
    → FindsAll e
    → ((l : ℕ) → IsLoggingOrNoop (which l))
    → Ensures
        (λ h s t. (replies e t ≡ h) × (calls_of h ≡ asked ops []) × Routed e t)
        (run v which memory ops [] e new_process [])
run-Transparent v which memory e ops backend finds ours =
    mono _ _ (run v which memory ops [] e new_process [])
      (run-Followed e memory v which backend finds ours ops new_process [] []
        (inl (refl, record { same = refl; by_name = tt })))
      λ h s t (fit, calls). elim fit [
        | inl (fresh, l) ↦ (l.same, calls, l.by_name)
        | inr (inited, (real, table, r, l)) ↦ (l.same, calls, l.by_name)
      ]
