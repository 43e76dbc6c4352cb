-- ===== src/Store/Lock.antt =====
-- FilesystemLockCoordinator of src/assistant/store/filesystem/lock.py. An operation runs under the
-- asyncio lock of its key, so it is one step on the directory. Every `datetime.now` is an argument.
pub mod Reads
pub mod Maintenance
pub mod Sweep
mod SweepSamples
pub mod Lease
pub mod Branches
mod Samples
use Prim.Native.String.{◌++◌}
use private_claw.Prelude.{
  ℕ, String, Option, none, some, Bool, true, false, leb, if◌then◌else◌, ◌==◌, string_eq,
}
use private_claw.Prelude.Dict.{Dict, lookup, insert, erase}
use private_claw.Store.Files.{Document, holds, parsed, after_seconds, ttl_or}

pub record LockRecord : Type 0 where
  pub lock_key : String
  pub owner_id : String
  pub acquired_at : ℕ
  pub expires_at : ℕ

abbrev pub Locks : Type 0
Locks = Dict String (Document LockRecord)

unfoldable pub is_expired : ℕ → LockRecord → Bool
is_expired now record' = leb record'.expires_at now

-- `digest` is the first 32 hexadecimal digits of the SHA-256 of a text.
module _ (digest : String → String) where
  abbrev pub lock_path : String → String
  lock_path lock_key = digest lock_key ++ ".lock"

  unfoldable pub read_lock_record : Locks → String → Option LockRecord
  read_lock_record s lock_key = parsed (lookup (lock_path lock_key) s)

  unfoldable pub write_lock_record : Locks → LockRecord → Locks
  write_lock_record s record' = insert (lock_path record'.lock_key) (holds record') s

  unfoldable pub delete_lock_record : Locks → String → Locks
  delete_lock_record s lock_key = erase (lock_path lock_key) s

  -- `now` is the one reading of the clock
  unfoldable pub refresh_unlocked :
      String → String → ℕ → LockRecord → ℕ → Locks → Option LockRecord × Locks
  refresh_unlocked lock_key owner_id ttl existing now s =
      let renewed : LockRecord = record {
        lock_key = lock_key;
        owner_id = owner_id;
        acquired_at = existing.acquired_at;
        expires_at = after_seconds now ttl;
      } in
      (some renewed, write_lock_record s renewed)

  -- the end of `acquire`: a new record, at the clock's reading `now`
  unfoldable pub grant : String → String → ℕ → ℕ → Locks → Option LockRecord × Locks
  grant lock_key owner_id ttl now s =
      let granted : LockRecord = record {
        lock_key = lock_key;
        owner_id = owner_id;
        acquired_at = now;
        expires_at = after_seconds now ttl;
      } in
      (some granted, write_lock_record s granted)

  acquire_over :
      String → String → ℕ → (seen now : ℕ) → Option LockRecord → Locks → Option LockRecord × Locks
  acquire_over lock_key owner_id ttl seen now none s = grant lock_key owner_id ttl now s
  acquire_over lock_key owner_id ttl seen now (some existing) s =
      if existing.owner_id == owner_id
      then refresh_unlocked lock_key owner_id ttl existing now s
      else if is_expired seen existing
      then grant lock_key owner_id ttl now (delete_lock_record s lock_key)
      else (none, s)

  -- `seen` is the clock when the old record's expiry is tested, `now` when the new one is stamped.
  unfoldable pub acquire :
      ℕ → String → String → Option ℕ → (seen now : ℕ) → Locks → Option LockRecord × Locks
  unfolding acquire_over is_expired grant refresh_unlocked
  acquire fallback lock_key owner_id ttl seen now s =
      acquire_over lock_key owner_id (ttl_or fallback ttl) seen now (read_lock_record s lock_key) s

  release_over : String → String → Option LockRecord → Locks → Bool × Locks
  release_over lock_key owner_id none s = (false, s)
  release_over lock_key owner_id (some existing) s =
      if existing.owner_id == owner_id then (true, delete_lock_record s lock_key) else (false, s)

  unfoldable pub release : String → String → Locks → Bool × Locks
  unfolding release_over
  release lock_key owner_id s = release_over lock_key owner_id (read_lock_record s lock_key) s

  refresh_over : String → String → ℕ → ℕ → Option LockRecord → Locks → Option LockRecord × Locks
  refresh_over lock_key owner_id ttl now none s = (none, s)
  refresh_over lock_key owner_id ttl now (some existing) s =
      if existing.owner_id == owner_id
      then refresh_unlocked lock_key owner_id ttl existing now s
      else (none, s)

  unfoldable pub refresh : ℕ → String → String → Option ℕ → ℕ → Locks → Option LockRecord × Locks
  unfolding refresh_over refresh_unlocked
  refresh fallback lock_key owner_id ttl now s =
      refresh_over lock_key owner_id (ttl_or fallback ttl) now (read_lock_record s lock_key) s

  live : ℕ → Option LockRecord → Option LockRecord
  live now none = none
  live now (some record') = if is_expired now record' then none else some record'

  unfoldable pub get_lock_info : String → ℕ → Locks → Option LockRecord
  unfolding live is_expired
  get_lock_info lock_key now s = live now (read_lock_record s lock_key)

  locked_by : ℕ → Option LockRecord → Bool
  locked_by now none = false
  locked_by now (some record') = if is_expired now record' then false else true

  unfoldable pub is_locked : String → ℕ → Locks → Bool
  unfolding locked_by is_expired
  is_locked lock_key now s = locked_by now (read_lock_record s lock_key)
