-- ===== src/Store/Lock/Lease.antt =====
-- Mutual exclusion of the lock coordinator of src/assistant/store/filesystem/lock.py, over any
-- sequence of its operations. Each is atomic, so a sequence is an interleaving of the callers.
use private_claw.Prelude.{
  ℕ, suc, ◌<◌, String, ◌≡◌, ◌≢◌, refl, Option, none, some, List, [], ◌∷◌, All, arith, ◌==◌,
  if◌then◌else◌, string_eq,
}
use private_claw.Store.Files.{after_seconds, ttl_or}
use private_claw.Store.Lock
use private_claw.Store.Lock.Reads.{read-write, read-delete, read_same_path}
use private_claw.Store.Lock.{LockRecord, Locks, lock_path, read_lock_record}

-- A call of the coordinator, with the readings of the clock that it makes.
pub data Call : Type 0 where
  acquire : (lock_key owner_id : String) (ttl : Option ℕ) (seen now : ℕ) → Call
  release : (lock_key owner_id : String) → Call
  refresh : (lock_key owner_id : String) (ttl : Option ℕ) (now : ℕ) → Call

-- Made by another owner, and with the clock below `until` where the expiry is tested.
abbrev pub IsForeign : String → ℕ → Call → Type 0
IsForeign owner until (acquire _ owner_id _ seen _) = (owner_id ≢ owner) × (seen < until)
IsForeign owner until (release _ owner_id) = owner_id ≢ owner
IsForeign owner until (refresh _ owner_id _ _) = owner_id ≢ owner

abbrev pub key_of : Call → String
key_of (acquire k _ _ _ _) = k
key_of (release k _) = k
key_of (refresh k _ _ _) = k

abbrev count_grant : Option LockRecord → ℕ → ℕ
count_grant none n = n
count_grant (some _) n = suc n

module _ (digest : String → String) (fallback : ℕ) where
  -- the record that a call gives its caller, and the directory that it leaves
  abbrev pub call : Call → Locks → Option LockRecord × Locks
  call (acquire k o ttl seen now) s = Lock.acquire digest fallback k o ttl seen now s
  call (release k o) s = (none, (Lock.release digest k o s).1)
  call (refresh k o ttl now) s = Lock.refresh digest fallback k o ttl now s

  -- how many of the calls were given a record of the key `k`, and the last directory
  unfoldable pub run : String → List Call → Locks → ℕ × Locks
  run k [] s = (0, s)
  run k (c ∷ cs) s =
      let (given, s') = call c s in
      let (n, last) = run k cs s' in (if key_of c == k then count_grant given n else n, last)

  -- A record that has not expired outlives every call of another owner.
  read-call :
      (k : String) (r : LockRecord) (c : Call) (s : Locks)
      → IsForeign r.owner_id r.expires_at c
      → read_lock_record digest s k ≡ some r
      → read_lock_record digest (call c s).1 k ≡ some r
  unfolding Lock.acquire Lock.release Lock.refresh
  read-call k r (acquire j o ttl seen now) s f h =
      grind (arith, read_same_path digest k j s, read-write, read-delete)
  read-call k r (release j o) s f h =
      ground (arith, read_same_path digest k j s, read-delete digest k j s)
  read-call k r (refresh j o ttl now) s f h = grind (arith, read_same_path digest k j s, read-write)

  -- Another owner's call on the key gets nothing.
  call_denied :
      (k : String) (r : LockRecord) (c : Call) (s : Locks)
      → IsForeign r.owner_id r.expires_at c
      → read_lock_record digest s k ≡ some r
      → key_of c ≡ k
      → (call c s).0 ≡ none
  unfolding Lock.acquire Lock.release Lock.refresh
  call_denied k r (acquire j o ttl seen now) s f h e = ground (arith, ap_read j k s e)
    where
      ap_read :
          (i l : String) (d : Locks)
          → i ≡ l
          → read_lock_record digest d i ≡ read_lock_record digest d l
      ap_read i l d p = rw p
  call_denied k r (release j o) s f h e = refl
  call_denied k r (refresh j o ttl now) s f h e = rw e (ground arith)

  run_leased :
      (k : String) (r : LockRecord) (cs : List Call) (s : Locks)
      → All (IsForeign r.owner_id r.expires_at) cs
      → read_lock_record digest s k ≡ some r
      → ((run k cs s).0 ≡ 0) × (read_lock_record digest (run k cs s).1 k ≡ some r)
  unfolding run
  run_leased k r [] s f h = (refl, h)
  run_leased k r (c ∷ cs) s f h = ground (
    arith,
    call_denied k r c s f.0 h,
    run_leased k r cs (call c s).1 f.1 (read-call k r c s f.0 h),
  )

  -- What a successful `acquire` leaves on disk.
  pub read-acquire :
      (k owner : String) (ttl : Option ℕ) (seen now : ℕ) (s : Locks) (r : LockRecord)
      → (Lock.acquire digest fallback k owner ttl seen now s).0 ≡ some r
      → (read_lock_record digest (Lock.acquire digest fallback k owner ttl seen now s).1 k ≡ some r)
        × (r.owner_id ≡ owner)
        × (r.expires_at ≡ after_seconds now (ttl_or fallback ttl))
  unfolding Lock.acquire
  read-acquire k owner ttl seen now s r h = grind (arith, read-write)

  -- After an `acquire` that succeeded at the moment `now`, whatever other owners call on whatever
  -- keys, as long as their expiry tests read a clock before `now` plus the lease: none of them is
  -- given the key, and the owner's record is still the one on disk.
  pub acquire_excludes :
      (k owner : String) (ttl : Option ℕ) (seen now : ℕ) (s : Locks) (r : LockRecord)
      (cs : List Call)
      → (Lock.acquire digest fallback k owner ttl seen now s).0 ≡ some r
      → All (IsForeign owner (after_seconds now (ttl_or fallback ttl))) cs
      → let s' = (Lock.acquire digest fallback k owner ttl seen now s).1 in
        ((run k cs s').0 ≡ 0) × (read_lock_record digest (run k cs s').1 k ≡ some r)
  acquire_excludes k owner ttl seen now s r cs h f =
      let (stored, owned, lasts) = read-acquire k owner ttl seen now s r h in
      run_leased k r cs _ (rw (owned, lasts) f) stored

  -- A call on a key leaves the records of the keys on other paths as they were.
  pub read-call_other :
      (c : Call) (k : String) (s : Locks)
      → lock_path digest (key_of c) ≢ lock_path digest k
      → read_lock_record digest (call c s).1 k ≡ read_lock_record digest s k
  unfolding Lock.acquire Lock.release Lock.refresh
  read-call_other (acquire j o ttl seen now) k s h = grind (arith, read-write, read-delete)
  read-call_other (release j o) k s h = ground (arith, read-delete digest k j s)
  read-call_other (refresh j o ttl now) k s h = grind (arith, read-write)
