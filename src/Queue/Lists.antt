-- ===== src/Queue/Lists.antt =====
-- crates/hrx-libhrx/src/queue_ops.rs: the semaphore lists of a submission, and the arrays of 16 entries that
-- they are copied into.
use hrx_system_rs.Base.{
  ℕ, zero, suc, ◌≤◌, ◌<◌, ◌≡◌, ◌≢◌, refl, none, some, List, [], ◌∷◌, map, arith, length, leb,
  if◌then◌else◌,
}
use hrx_system_rs.Hal.{Objects, SemaphoreValue}
use hrx_system_rs.Queue.{hrx_max_queue_semaphores, fill_arrays, to_iree_sem_list}

abbrev pub LiveHandles : List SemaphoreValue → Type 0
LiveHandles [] = Unit {0}
LiveHandles (x ∷ xs) = (x.semaphore ≢ 0) × LiveHandles xs

abbrev pub hal_entry : Objects → SemaphoreValue → SemaphoreValue
hal_entry o x = record { semaphore = o.semaphore_hal x.semaphore; value = x.value }

module _ (o : Objects) where
  fill_arrays-overflow :
      (room : ℕ) (xs : List SemaphoreValue) → room < length xs → fill_arrays o room xs ≡ none
  unfolding fill_arrays
  fill_arrays-overflow zero [] h = absurd (omega arith)
  fill_arrays-overflow (suc room) [] h = absurd (omega arith)
  fill_arrays-overflow zero (x ∷ xs) h = refl
  fill_arrays-overflow (suc room) (x ∷ xs) h = ground (arith, fill_arrays-overflow room xs)

  fill_arrays-map :
      (room : ℕ) (xs : List SemaphoreValue)
      → length xs ≤ room
      → LiveHandles xs
      → fill_arrays o room xs ≡ some (map (hal_entry o) xs)
  unfolding fill_arrays
  fill_arrays-map zero [] h live = refl
  fill_arrays-map (suc room) [] h live = refl
  fill_arrays-map zero (x ∷ xs) h live = absurd (omega arith)
  fill_arrays-map (suc room) (x ∷ xs) h live = ground (arith, fill_arrays-map room xs)

  -- The conversion of a list of live semaphores keeps every entry in order when there are at most 16,
  -- and writes past the end of the caller's arrays when there are more: no count is checked.
  pub to_iree_sem_list-exact :
      (xs : List SemaphoreValue)
      → LiveHandles xs
      → to_iree_sem_list o (some xs)
        ≡ (if leb (length xs) hrx_max_queue_semaphores then some (map (hal_entry o) xs) else none)
  unfolding to_iree_sem_list
  to_iree_sem_list-exact xs live = ground (arith, fill_arrays-map 16 xs, fill_arrays-overflow 16 xs)
