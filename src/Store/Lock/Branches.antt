-- ===== src/Store/Lock/Branches.antt =====
-- What each operation of src/assistant/store/filesystem/lock.py does on its branches.
use private_claw.Prelude.{
  ℕ, String, ◌≡◌, ◌≢◌, ◌↔◌, Option, none, some, true, false, arith, string_eq, Option-cases, inl,
  inr,
}
use private_claw.Store.Files.{after_seconds, ttl_or}
use private_claw.Store.Lock.Reads.{read-write, read-delete}
use private_claw.Store.Lock.{
  LockRecord, Locks, read_lock_record, acquire, release, refresh, get_lock_info,
}

-- `acquire` fails exactly when another owner's record is on disk that has not expired at the
-- moment of the test, and then it leaves the directory as it was.
pub acquire_denied_iff :
    (digest : String → String) (fallback : ℕ) (k owner : String) (ttl : Option ℕ) (seen now : ℕ)
    (s : Locks)
    → let (got, s') = acquire digest fallback k owner ttl seen now s in
      ((got ≡ none)
        ↔ ((r : LockRecord) × (get_lock_info digest k seen s ≡ some r) × (r.owner_id ≢ owner)))
      × (got ≡ none → s' ≡ s)
unfolding acquire get_lock_info
acquire_denied_iff digest fallback k owner ttl seen now s =
    elim (Option-cases (read_lock_record digest s k)) [
      | inl absent ↦
          rw absent
            ((λ h. absurd (ground arith), λ h. absurd (ground arith)), λ h. absurd (ground arith))
      | inr (r, found) ↦
          rw found ((λ h. (r, ground arith, ground arith), λ h. ground arith), λ h. ground arith)
    ]

-- `release` answers true exactly when the record on disk is the caller's, and then the key has no
-- record any more; otherwise it leaves the directory as it was.
pub release_lem :
    (digest : String → String) (k owner : String) (s : Locks)
    → (((release digest k owner s).0 ≡ true)
        ↔ ((r : LockRecord) × (read_lock_record digest s k ≡ some r) × (r.owner_id ≡ owner)))
      × ((release digest k owner s).0 ≡ true
          → read_lock_record digest (release digest k owner s).1 k ≡ none)
      × ((release digest k owner s).0 ≡ false → (release digest k owner s).1 ≡ s)
unfolding release
release_lem digest k owner s = elim (Option-cases (read_lock_record digest s k)) [
  | inl absent ↦ rw absent (
    (λ h. absurd (ground arith), λ h. absurd (ground arith)),
    λ h. absurd (ground arith),
    λ h. ground arith,
  )
  | inr (r, found) ↦ rw found (
    (λ h. (r, ground arith, ground arith), λ h. ground arith),
    λ h. ground (arith, read-delete digest k k s),
    λ h. ground arith,
  )
]

-- `refresh` succeeds exactly for the owner on disk. The new record keeps the moment of the
-- acquisition and lasts for the time to live from now; a caller that fails changes nothing.
pub refresh_lem :
    (digest : String → String) (fallback : ℕ) (k owner : String) (ttl : Option ℕ) (now : ℕ)
    (s : Locks)
    → ((r : LockRecord)
        → read_lock_record digest s k ≡ some r
        → r.owner_id ≡ owner
        → (r' : LockRecord) × (read_lock_record digest
              (refresh digest fallback k owner ttl now s).1
              k
            ≡ some r')
          × ((refresh digest fallback k owner ttl now s).0 ≡ some r')
          × (r'.owner_id ≡ owner)
          × (r'.acquired_at ≡ r.acquired_at)
          × (r'.expires_at ≡ after_seconds now (ttl_or fallback ttl)))
      × ((refresh digest fallback k owner ttl now s).0 ≡ none
          → (refresh digest fallback k owner ttl now s).1 ≡ s)
unfolding refresh
refresh_lem digest fallback k owner ttl now s = (
  λ r found owned.
      let r' : LockRecord = record {
        lock_key = k;
        owner_id = owner;
        acquired_at = r.acquired_at;
        expires_at = after_seconds now (ttl_or fallback ttl);
      } in
      rw found (
        r',
        ground (arith, read-write digest k r' s),
        ground arith,
        ground arith,
        ground arith,
        ground arith,
      ),
  λ h. ground arith,
)
