-- ===== src/Store/Lock/Maintenance.antt =====
-- The operations of StoreRuntimeManager on the lock directory:
-- src/assistant/store/runtime/manager.py. None of them awaits between reading a file and removing
-- it, so each is one step.
use private_claw.Prelude.{
  ℕ, suc, String, none, some, Bool, true, false, List, [], ◌∷◌, leb, if◌then◌else◌, string_eq,
}
use private_claw.Prelude.Dict.{lookup, erase}
use private_claw.Store.Files.{malformed, holds}
use private_claw.Store.Lock.{LockRecord, Locks, lock_path}

unfoldable pub cleanup_expired_locks : ℕ → Locks → ℕ × Locks
cleanup_expired_locks now [] = (0, [])
cleanup_expired_locks now ((path, malformed) ∷ s) =
    let (count, left) = cleanup_expired_locks now s in (count, (path, malformed) ∷ left)
cleanup_expired_locks now ((path, holds record') ∷ s) =
    let (count, left) = cleanup_expired_locks now s in
    if leb record'.expires_at now then (suc count, left) else (count, (path, holds record') ∷ left)

unfoldable pub force_release_lock : (String → String) → String → Locks → Bool × Locks
force_release_lock digest lock_key s = elim (lookup (lock_path digest lock_key) s) [
  | none ↦ (false, s)
  | some _ ↦ (true, erase (lock_path digest lock_key) s)
]

-- `sorted(active_locks, key=lambda x: x.acquired_at)`, which is stable
unfoldable pub insert_by_age : LockRecord → List LockRecord → List LockRecord
insert_by_age r [] = r ∷ []
insert_by_age r (x ∷ xs) =
    let rest = insert_by_age r xs in
    if leb r.acquired_at x.acquired_at then r ∷ x ∷ xs else x ∷ rest

unfoldable pub list_active_locks : ℕ → Locks → List LockRecord
unfolding insert_by_age
list_active_locks now [] = []
list_active_locks now ((path, malformed) ∷ s) = list_active_locks now s
list_active_locks now ((path, holds record') ∷ s) =
    let rest = list_active_locks now s in
    if leb record'.expires_at now then rest else insert_by_age record' rest
