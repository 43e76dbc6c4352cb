-- ===== src/Store/Lock/Samples.antt =====
-- Runs of the lock coordinator on small inputs.
use mathlib.Core.Bool.{false≢true}
use text.Mathlib.TextEquality.{eq_iff}
use private_claw.Prelude.{
  String, ◌≡◌, ◌≢◌, ◌↔◌, refl, none, some, List, [], ◌∷◌, arith, string_discrete,
}
use private_claw.Prelude.Dict.{lookup, insert, erase}
use private_claw.Store.Lock
use private_claw.Store.Lock.{
  LockRecord, Locks, lock_path, read_lock_record, write_lock_record, delete_lock_record,
  get_lock_info,
}
use private_claw.Store.Lock.Lease.{Call, acquire, release, refresh, run, acquire_excludes}
use private_claw.Store.Lock.Branches.{acquire_denied_iff}

abbrev digest : String → String
digest s = s

abbrev lease : LockRecord
lease = record {
  lock_key = "session:a";
  owner_id = "worker";
  acquired_at = 100;
  expires_at = 30000100;
}

abbrev taken : Locks
taken = (Lock.acquire digest 30 "session:a" "worker" none 90 100 []).1

program : Unit {0}
unfolding Lock.acquire Lock.release Lock.refresh read_lock_record write_lock_record
    delete_lock_record get_lock_info lookup insert erase string_discrete run
program = tt

acquire_first : (Lock.acquire digest 30 "session:a" "worker" none 90 100 []).0 ≡ some lease
unfolding program
acquire_first = refl

acquire-taken : Lock.acquire digest 30 "session:a" "other" none 200 210 taken ≡ (none, taken)
unfolding program
acquire-taken = refl

acquire-stale :
    (r : LockRecord) × ((Lock.acquire digest 30 "session:a" "other" none 30000100 30000101 taken).0
      ≡ some r)
unfolding program
acquire-stale = (
  record {
    lock_key = "session:a";
    owner_id = "other";
    acquired_at = 30000101;
    expires_at = 60000101;
  },
  refl,
)

other_ne_worker : ◌≢◌ {A = String} "other" "worker"
other_ne_worker e = false≢true ((eq_iff "other" "worker").1 e)

abbrev rivals : List Call
rivals =
    acquire "session:a" "other" (some 5) 150 160
    ∷ release "session:a" "other"
    ∷ refresh "session:a" "other" none 180
    ∷ []

acquire_excludes_example :
    ((run digest 30 "session:a" rivals taken).0 ≡ 0)
    × (read_lock_record digest (run digest 30 "session:a" rivals taken).1 "session:a" ≡ some lease)
acquire_excludes_example =
    acquire_excludes digest 30 "session:a" "worker" none 90 100 [] lease rivals acquire_first
      ((other_ne_worker, omega arith), (other_ne_worker, (other_ne_worker, tt)))

acquire_denied_iff_example :
    let (got, s') = Lock.acquire digest 30 "session:a" "other" none 200 210 taken in
    ((got ≡ none) ↔ (
      (r : LockRecord) × (get_lock_info digest "session:a" 200 taken ≡ some r)
      × (r.owner_id ≢ "other")))
    × (got ≡ none → s' ≡ taken)
acquire_denied_iff_example = acquire_denied_iff digest 30 "session:a" "other" none 200 210 taken

paths_differ : lock_path digest "session:b" ≢ lock_path digest "session:a"
paths_differ e = false≢true ((eq_iff "session:b.lock" "session:a.lock").1 e)
