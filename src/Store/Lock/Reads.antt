-- ===== src/Store/Lock/Reads.antt =====
-- What `read_lock_record` meets after a write and after a deletion.
use private_claw.Prelude.{
  ℕ, String, ◌≡◌, ◌⊎◌, refl, Option, none, some, arith, if◌then◌else◌, ◌==◌, string_eq,
  Option-cases, Bool-cases, inl, inr, leb,
}
use private_claw.Prelude.Dict.{lookup-insert, lookup-erase}
use private_claw.Store.Files.{holds, after_seconds, ttl_or}
use private_claw.Store.Lock.{
  LockRecord, Locks, lock_path, read_lock_record, write_lock_record, delete_lock_record, acquire,
  release,
}

module _ (digest : String → String) where
  pub read-write :
      (k : String) (r : LockRecord) (s : Locks)
      → read_lock_record digest (write_lock_record digest s r) k ≡ (
          if lock_path digest r.lock_key == lock_path digest k
          then some r
          else read_lock_record digest s k)
  unfolding read_lock_record write_lock_record
  read-write k r s =
      let p = lock_path digest k in
      let q = lock_path digest r.lock_key in ground (arith, lookup-insert p q (holds r) s)

  pub read-delete :
      (k j : String) (s : Locks)
      → read_lock_record digest (delete_lock_record digest s j) k
        ≡ (if lock_path digest j == lock_path digest k then none else read_lock_record digest s k)
  unfolding read_lock_record delete_lock_record
  read-delete k j s = ground (arith, lookup-erase (lock_path digest k) (lock_path digest j) s)

  -- Keys with one path have one record.
  pub read_same_path :
      (k j : String) (s : Locks)
      → lock_path digest j ≡ lock_path digest k
      → read_lock_record digest s j ≡ read_lock_record digest s k
  unfolding read_lock_record
  read_same_path k j s e = rw e

  -- `acquire` fails and changes nothing, or leaves the caller's record on disk.
  pub acquire_cases :
      (fallback : ℕ) (k owner : String) (ttl : Option ℕ) (seen now : ℕ) (s : Locks)
      → (acquire digest fallback k owner ttl seen now s ≡ (none, s))
        ⊎ ((r : LockRecord) × ((acquire digest fallback k owner ttl seen now s).0 ≡ some r)
            × (read_lock_record digest (acquire digest fallback k owner ttl seen now s).1 k
                ≡ some r)
            × (r.owner_id ≡ owner))
  unfolding acquire
  acquire_cases fallback k owner ttl seen now s =
      let fresh : LockRecord = record {
        lock_key = k;
        owner_id = owner;
        acquired_at = now;
        expires_at = after_seconds now (ttl_or fallback ttl);
      } in
      elim (Option-cases (read_lock_record digest s k)) [
        | inl absent ↦ rw absent (inr (fresh, refl, ground (arith, read-write k fresh s), refl))
        | inr (r, found) ↦ rw found (
            let renewed : LockRecord = record {
              lock_key = k;
              owner_id = owner;
              acquired_at = r.acquired_at;
              expires_at = after_seconds now (ttl_or fallback ttl);
            } in
            elim (Bool-cases (r.owner_id == owner)) [
              | inl own ↦ rw own (inr (renewed, refl, ground (arith, read-write k renewed s), refl))
              | inr other ↦ rw other (elim (Bool-cases (leb r.expires_at seen)) [
                | inl old ↦ rw old (
                    inr (
                      fresh,
                      refl,
                      ground (arith, read-write k fresh (delete_lock_record digest s k)),
                      refl,
                    ))
                | inr live ↦ rw live (inl refl)
              ])
            ])
      ]

  -- the owner on disk gets its lock again
  pub acquire_own :
      (fallback : ℕ) (k owner : String) (ttl : Option ℕ) (seen now : ℕ) (s : Locks) (r : LockRecord)
      → read_lock_record digest s k ≡ some r
      → r.owner_id ≡ owner
      → (acquire digest fallback k owner ttl seen now s).0
        ≡ some (record {
          lock_key = k;
          owner_id = owner;
          acquired_at = r.acquired_at;
          expires_at = after_seconds now (ttl_or fallback ttl);
        })
  unfolding acquire
  acquire_own fallback k owner ttl seen now s r found own = rw found (ground (arith, own))

  -- and gives it up
  pub release_own :
      (k owner : String) (s : Locks) (r : LockRecord)
      → read_lock_record digest s k ≡ some r
      → r.owner_id ≡ owner
      → read_lock_record digest (release digest k owner s).1 k ≡ none
  unfolding release
  release_own k owner s r found own = rw found (ground (arith, own, read-delete k k s))
