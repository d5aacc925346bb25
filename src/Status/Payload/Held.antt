-- ===== src/Status/Payload/Held.antt =====
-- crates/hrx-libhrx/src/common.rs: the memory that a conversion of statuses holds.
use hrx_system_rs.Base.{
  ℕ, ◌≡◌, ◌≢◌, refl, Option-cases, inl, inr, Option, none, some, List, ◌∷◌, if◌then◌else◌, arith,
}
use hrx_system_rs.Ffi.{Env, Reply, IreeStatus, ◌>>=◌}
use hrx_system_rs.Ffi.Ensures.{Ensures, bind}
use hrx_system_rs.Ffi.Kinds.{Kind, held, when_ok}
use hrx_system_rs.Hal.{is_null}
use hrx_system_rs.Status.{hrx_code_from_iree}
use hrx_system_rs.Status.Payload.{
  PayloadCall, malloc_payload, strdup, free, iree_status_to_string, iree_status_free,
  allocator_free, iree_status_allocate, Payload, make_status, status_drop, formatted,
  status_from_iree, status_to_iree, Fate, ignore, give_back, consume,
}

abbrev unless_null : ℕ → Option ℕ
unless_null p = if is_null p then none else some p

abbrev opens_block : PayloadCall → Reply → Option ℕ
opens_block malloc_payload r = unless_null r.ptr
opens_block (strdup m) r = unless_null r.ptr
opens_block _ r = none

-- Freeing NULL does nothing.
abbrev closes_block : PayloadCall → Option ℕ
closes_block (free p) = unless_null p
closes_block _ = none

abbrev pub blocks : Kind PayloadCall
blocks = record { opens = opens_block; closes = closes_block }

abbrev opens_text : PayloadCall → Reply → Option ℕ
opens_text (iree_status_to_string s) r = when_ok r.status r.ptr
opens_text _ r = none

abbrev closes_text : PayloadCall → Option ℕ
closes_text (allocator_free p) = some p
closes_text _ = none

abbrev pub texts : Kind PayloadCall
texts = record { opens = opens_text; closes = closes_text }

abbrev opens_status : PayloadCall → Reply → Option ℕ
opens_status (iree_status_allocate c m) r = some r.ptr
opens_status _ r = none

abbrev closes_status : PayloadCall → Option ℕ
closes_status (iree_status_free s) = some s
closes_status _ = none

abbrev pub iree_statuses : Kind PayloadCall
iree_statuses = record { opens = opens_status; closes = closes_status }

abbrev with_message : ℕ → List ℕ → List ℕ
with_message m bs = if is_null m then bs else m ∷ bs

abbrev BlocksOf : Env PayloadCall → Option Payload → List ℕ → List PayloadCall → Type 0
BlocksOf e none bs t = held blocks e t ≡ some bs
BlocksOf e (some s) bs t =
    (s.ptr ≢ 0) × (held blocks e t ≡ some (with_message s.message (s.ptr ∷ bs)))

abbrev pub statuses_of : Option ℕ → List ℕ → List ℕ
statuses_of none ss = ss
statuses_of (some s) ss = s ∷ ss

abbrev texts_of : IreeStatus → ℕ → List ℕ → List ℕ
texts_of none p xs = p ∷ xs
texts_of (some c) p xs = xs

-- The blocks of libc, the texts and the IREE statuses that a trace holds.
pub record Holds (e : Env PayloadCall) (bs xs ss : List ℕ) (t : List PayloadCall) : Type 0 where
  pub same_blocks : held blocks e t ≡ some bs
  pub same_texts : held texts e t ≡ some xs
  pub same_statuses : held iree_statuses e t ≡ some ss

module _ (e : Env PayloadCall) (bs xs ss : List ℕ) where
  abbrev Owns : Option Payload → List PayloadCall → Type 0
  Owns p t = BlocksOf e p bs t × (held texts e t ≡ some xs) × (held iree_statuses e t ≡ some ss)

  make_status-Owns :
      (code message : ℕ) (t : List PayloadCall)
      → Holds e bs xs ss t
      → Ensures (λ p _ t'. Owns p t') (make_status code message e tt t)
  unfolding make_status
  make_status-Owns code message t h = ground arith

  status_drop-Holds :
      (p : Option Payload) (t : List PayloadCall)
      → Owns p t
      → Ensures (λ _ _ t'. Holds e bs xs ss t') (status_drop p e tt t)
  unfolding status_drop
  status_drop-Holds none t h = ground arith
  status_drop-Holds (some s) t h = ground arith

  module _ (code_of : ℕ → ℕ) (could_not_format no_message : ℕ) where
    status_to_iree-Holds :
        (p : Option Payload) (t : List PayloadCall)
        → Owns p t
        → Ensures
            (λ r _ t'. Holds e bs xs (statuses_of r ss) t')
            (status_to_iree code_of could_not_format no_message p e tt t)
    unfolding status_to_iree
    status_to_iree-Holds none t h = ground arith
    status_to_iree-Holds (some s) t h = ground arith

module _ (e : Env PayloadCall) (bs xs ss : List ℕ) (code_of : ℕ → ℕ)
    (could_not_format no_message : ℕ) where
  consume-Holds :
      (fate : Fate) (p : Option Payload) (t : List PayloadCall)
      → Owns e bs xs ss p t
      → Ensures
          (λ r _ t'. Holds e bs xs (statuses_of r ss) t')
          (consume code_of could_not_format no_message fate p e tt t)
  consume-Holds ignore p t h =
      bind (λ _ _ t'. Holds e bs xs ss t') (λ r _ t'. Holds e bs xs (statuses_of r ss) t')
        (status_drop p e tt t) _ (status_drop-Holds e bs xs ss p t h) λ u s t' k. k
  consume-Holds give_back p t h =
      status_to_iree-Holds e bs xs ss code_of could_not_format no_message p t h

  released :
      (p : Option Payload) (s text : ℕ) (t : List PayloadCall)
      → Owns e bs (text ∷ xs) (s ∷ ss) p t
      → Owns e bs xs ss p (iree_status_free s ∷ allocator_free text ∷ t)
  released none s text t h = ground arith
  released (some p) s text t h = ground arith

  asked :
      (s : ℕ) (t : List PayloadCall)
      → held texts e t ≡ some xs
      → (let r = e.reply (iree_status_to_string s ∷ t) in
          held texts e (iree_status_to_string s ∷ t) ≡ some (texts_of r.status r.ptr xs))
  asked s t h = elim (Option-cases (e.reply (iree_status_to_string s ∷ t)).status) [
    | inl ok ↦ rw (ok, h) refl
    | inr (c, failed) ↦ rw (failed, h) refl
  ]

  formatted-Owns :
      (s : ℕ) (status : IreeStatus) (text : ℕ) (t : List PayloadCall)
      → held blocks e t ≡ some bs
      → held texts e t ≡ some (texts_of status text xs)
      → held iree_statuses e t ≡ some (s ∷ ss)
      → Ensures
          (λ p _ t'. Owns e bs xs ss p t')
          (formatted code_of could_not_format no_message s status text e tt t)
  unfolding formatted
  formatted-Owns s (some c) text t b x i =
      make_status-Owns e bs xs ss (hrx_code_from_iree (code_of s)) could_not_format
        (iree_status_free s ∷ t) (ground arith)
  formatted-Owns s none text t b x i =
      bind (λ p _ t'. Owns e bs (text ∷ xs) (s ∷ ss) p t') (λ p _ t'. Owns e bs xs ss p t')
        (make_status (hrx_code_from_iree (code_of s)) text e tt t) _
        (make_status-Owns e bs (text ∷ xs) (s ∷ ss) (hrx_code_from_iree (code_of s)) text t
          (record { same_blocks = b; same_texts = x; same_statuses = i }))
        λ p u t' h. released p s text t' h

  status_from_iree-Owns :
      (s : Option ℕ) (t : List PayloadCall)
      → Holds e bs xs (statuses_of s ss) t
      → Ensures
          (λ p _ t'. Owns e bs xs ss p t')
          (status_from_iree code_of could_not_format no_message s e tt t)
  unfolding status_from_iree
  status_from_iree-Owns none t h = ground arith
  status_from_iree-Owns (some s) t h =
      let c : PayloadCall = iree_status_to_string s in
      let r = e.reply (c ∷ t) in
      formatted-Owns s r.status r.ptr (c ∷ t) (rw h.same_blocks refl) (asked s t h.same_texts)
        (rw h.same_statuses refl)

  -- A status of IREE that becomes an HRX status, which is then ignored or given back to IREE, leaves no
  -- memory behind, whatever is answered, a failed allocation and a text that cannot be made included:
  -- the blocks of libc and the texts of IREE's allocator are those held before, each freed once, and of
  -- IREE's statuses the one that was converted is gone, in exchange for the one that is given back.
  pub convert-Holds :
      (fate : Fate) (s : Option ℕ) (t : List PayloadCall)
      → Holds e bs xs (statuses_of s ss) t
      → Ensures
          (λ r _ t'. Holds e bs xs (statuses_of r ss) t')
          ((status_from_iree code_of could_not_format no_message s
              >>= consume code_of could_not_format no_message fate)
            e tt t)
  convert-Holds fate s t h =
      bind (λ p _ t'. Owns e bs xs ss p t') (λ r _ t'. Holds e bs xs (statuses_of r ss) t')
        (status_from_iree code_of could_not_format no_message s e tt t) _
        (status_from_iree-Owns s t h) λ p u t' owned. consume-Holds fate p t' owned
