-- ===== src/Store/Lock/Sweep.antt =====
-- What the cleanup of src/assistant/store/runtime/manager.py means to the holders of locks.
use private_claw.Prelude.{
  ap, ◌∙◌, ℕ, ◌+◌, ◌≤◌, String, ◌≡◌, refl, Option, none, some, Bool, true, false, [], ◌∷◌, length,
  leb, if◌then◌else◌, arith, ◌==◌, string_eq,
}
use private_claw.Prelude.Dict.{lookup, lookup-erase, NodupKeys}
use private_claw.Store.Files.{ttl_or, malformed, holds, parsed}
use private_claw.Store.Lock.{
  LockRecord, Locks, lock_path, is_expired, read_lock_record, acquire, acquire_over, get_lock_info,
  is_locked, grant, refresh_unlocked, live, locked_by,
}
use private_claw.Store.Lock.Maintenance.{cleanup_expired_locks, force_release_lock}

-- the record that a cleanup leaves of one
abbrev pub swept : ℕ → Option LockRecord → Option LockRecord
swept now none = none
swept now (some record') = if leb record'.expires_at now then none else some record'

lookup-cleanup_absent :
    (now : ℕ) (p : String) (s : Locks)
    → lookup p s ≡ none
    → lookup p (cleanup_expired_locks now s).1 ≡ none
unfolding cleanup_expired_locks lookup
lookup-cleanup_absent now p [] h = refl
lookup-cleanup_absent now p ((q, malformed) ∷ s) h =
    ground (arith, h, lookup-cleanup_absent now p s)
lookup-cleanup_absent now p ((q, holds r) ∷ s) h = ground (arith, h, lookup-cleanup_absent now p s)

lookup-cleanup :
    (now : ℕ) (p : String) (s : Locks)
    → NodupKeys s
    → parsed (lookup p (cleanup_expired_locks now s).1) ≡ swept now (parsed (lookup p s))
unfolding cleanup_expired_locks lookup
lookup-cleanup now p [] u = refl
lookup-cleanup now p ((q, malformed) ∷ s) u = ground (arith, u.0, lookup-cleanup now p s u.1)
lookup-cleanup now p ((q, holds r) ∷ s) u =
    ground (arith, u.0, lookup-cleanup now p s u.1, lookup-cleanup_absent now p s)

length-cleanup :
    (now : ℕ) (s : Locks)
    → (cleanup_expired_locks now s).0 + length (cleanup_expired_locks now s).1 ≡ length s
unfolding cleanup_expired_locks
length-cleanup now [] = refl
length-cleanup now ((p, malformed) ∷ s) = omega (arith, length-cleanup now s)
length-cleanup now ((p, holds r) ∷ s) = ground (arith, length-cleanup now s)

-- whether `acquire` fails
abbrev pub is_denied : Option LockRecord × Locks → Bool
is_denied (none, s) = true
is_denied (some _, s) = false

acquire_over-swept :
    (digest : String → String) (key owner : String) (ttl now seen at : ℕ)
    (found : Option LockRecord) (s s' : Locks)
    → now ≤ seen
    → is_denied (acquire_over digest key owner ttl seen at (swept now found) s')
      ≡ is_denied (acquire_over digest key owner ttl seen at found s)
unfolding acquire_over is_expired grant refresh_unlocked
acquire_over-swept digest key owner ttl now seen at none s s' h = refl
acquire_over-swept digest key owner ttl now seen at (some r) s s' h = ground arith

acquire-cleanup :
    (digest : String → String) (fallback : ℕ) (key owner : String) (ttl : Option ℕ)
    (now seen at : ℕ) (s : Locks)
    → NodupKeys s
    → now ≤ seen
    → is_denied (acquire digest fallback key owner ttl seen at (cleanup_expired_locks now s).1)
      ≡ is_denied (acquire digest fallback key owner ttl seen at s)
unfolding acquire read_lock_record
acquire-cleanup digest fallback key owner ttl now seen at s u h =
    ap
      (λ found. is_denied (
        acquire_over digest key owner (ttl_or fallback ttl) seen at found
          (cleanup_expired_locks now s).1))
      (lookup-cleanup now (lock_path digest key) s u)
    ∙ acquire_over-swept digest key owner (ttl_or fallback ttl) now seen at _ s
        (cleanup_expired_locks now s).1 h

-- A cleanup of the lock directory takes no lock from anyone: at every later moment the same locks
-- are held, by the same records, and the same calls of `acquire` are denied. It counts the files
-- that it removes. (The files have different names.)
pub cleanup_expired_locks_lem :
    (digest : String → String) (now : ℕ) (s : Locks)
    → NodupKeys s
    → let s' = (cleanup_expired_locks now s).1 in
      ((key : String) (later : ℕ)
        → now ≤ later
        → (get_lock_info digest key later s' ≡ get_lock_info digest key later s)
          × (is_locked digest key later s' ≡ is_locked digest key later s))
      × ((fallback : ℕ) (key owner : String) (ttl : Option ℕ) (seen at : ℕ)
          → now ≤ seen
          → is_denied (acquire digest fallback key owner ttl seen at s')
            ≡ is_denied (acquire digest fallback key owner ttl seen at s))
      × ((cleanup_expired_locks now s).0 + length s' ≡ length s)
unfolding get_lock_info is_locked read_lock_record live locked_by is_expired
cleanup_expired_locks_lem digest now s u = (
  (λ key later h. (
    ground (arith, h, lookup-cleanup now (lock_path digest key) s u),
    ground (arith, h, lookup-cleanup now (lock_path digest key) s u),
  )),
  (λ fallback key owner ttl seen at h.
      acquire-cleanup digest fallback key owner ttl now seen at s u h),
  length-cleanup now s,
)

-- After a forced release the key is held by no one and whoever asks for it is given it; the locks of
-- other files stay.
pub force_release_lock_lem :
    (digest : String → String) (key : String) (s : Locks)
    → let s' = (force_release_lock digest key s).1 in
      ((later : ℕ) → is_locked digest key later s' ≡ false)
      × ((fallback : ℕ) (owner : String) (ttl : Option ℕ) (seen at : ℕ)
          → is_denied (acquire digest fallback key owner ttl seen at s') ≡ false)
      × ((other : String)
          → (lock_path digest key == lock_path digest other) ≡ false
          → read_lock_record digest s' other ≡ read_lock_record digest s other)
unfolding force_release_lock is_locked acquire acquire_over grant read_lock_record locked_by
force_release_lock_lem digest key s =
    let p = lock_path digest key in
    (
      (λ later. ground (arith, lookup-erase p p s)),
      (λ fallback owner ttl seen at. ground (arith, lookup-erase p p s)),
      (λ other h. ground (arith, h, lookup-erase (lock_path digest other) p s)),
    )
