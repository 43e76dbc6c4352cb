-- ===== src/Store/Lock/SweepSamples.antt =====
-- Runs of the maintenance of locks on small inputs.
use private_claw.Prelude.{
  ℕ, ◌+◌, ◌≤◌, String, ◌≡◌, refl, Option, [], ◌∷◌, length, string_eq, string_discrete,
}
use private_claw.Prelude.Dict.{lookup, erase, NodupKeys}
use private_claw.Store.Files.{malformed, holds}
use private_claw.Store.Lock.{Locks, LockRecord, read_lock_record, acquire, get_lock_info, is_locked}
use private_claw.Store.Lock.Maintenance.{
  cleanup_expired_locks, force_release_lock, list_active_locks, insert_by_age,
}
use private_claw.Store.Lock.Sweep.{is_denied, cleanup_expired_locks_lem}

abbrev digest : String → String
digest s = s

abbrev held : ℕ → ℕ → LockRecord
held since until = record {
  lock_key = "a";
  owner_id = "worker";
  acquired_at = since;
  expires_at = until;
}

abbrev locks : Locks
locks =
    ("a.lock", holds (held 30 100))
    ∷ ("b.lock", holds (held 10 40))
    ∷ ("c.lock", malformed)
    ∷ ("d.lock", holds (held 20 60))
    ∷ []

program : Unit {0}
unfolding cleanup_expired_locks force_release_lock list_active_locks insert_by_age read_lock_record
    lookup erase string_discrete
program = tt

removes_the_expired_one : (cleanup_expired_locks 50 locks).0 ≡ 1
unfolding program
removes_the_expired_one = refl

lists_by_age : list_active_locks 50 locks ≡ held 20 60 ∷ held 30 100 ∷ []
unfolding program
lists_by_age = refl

locks-NodupKeys : NodupKeys locks
unfolding program
locks-NodupKeys = (refl, (refl, (refl, (refl, tt))))

cleanup_expired_locks_lem_example :
    let s' = (cleanup_expired_locks 50 locks).1 in
    ((key : String) (later : ℕ)
      → 50 ≤ later
      → (get_lock_info digest key later s' ≡ get_lock_info digest key later locks)
        × (is_locked digest key later s' ≡ is_locked digest key later locks))
    × ((fallback : ℕ) (key owner : String) (ttl : Option ℕ) (seen at : ℕ)
        → 50 ≤ seen
        → is_denied (acquire digest fallback key owner ttl seen at s')
          ≡ is_denied (acquire digest fallback key owner ttl seen at locks))
    × ((cleanup_expired_locks 50 locks).0 + length s' ≡ 4)
cleanup_expired_locks_lem_example = cleanup_expired_locks_lem digest 50 locks locks-NodupKeys
