-- ===== src/Store/Recovery/Marker.antt =====
-- The marker of a recovery scan in src/assistant/store/facade.py.
use Prim.Native.Char.{Char}
use private_claw.Prelude.{
  ℕ, zero, suc, ◌+◌, String, ◌≡◌, ◌≢◌, ◌↔◌, refl, Bool, List, [], ◌∷◌, length, arith, nat_eq, ap,
  All,
}
use private_claw.Store.Records.{SessionRecord}
use private_claw.Store.Session.{Sessions, list_sessions, read_session, next_after}
use private_claw.Store.Task.{TaskStatus, list_by_status}
use private_claw.Store.Task.Cleanup.{IsOverdue, cleanup_expired_lem}
use private_claw.Store.Recovery.{
  healthy, recovered, degraded, create_synthetic_terminals, terminals, sorted_texts, insert_text,
  incomplete_turns, create_orphan_tool_results,
}
use private_claw.Store.Recovery.Scan.{
  repair_turns, repair_calls, scan_records, scan_session, scan_each, scan_sessions, scan_tasks,
  status_of, Stores, Clocks, run_recovery_scan,
}

length-insert_text : (x : String) (xs : List String) → length (insert_text x xs) ≡ suc (length xs)
unfolding insert_text
length-insert_text x [] = refl
length-insert_text x (y ∷ ys) = ground (arith, length-insert_text x ys)

length-sorted_texts : (xs : List String) → length (sorted_texts xs) ≡ length xs
unfolding sorted_texts
length-sorted_texts [] = refl
length-sorted_texts (x ∷ xs) =
    ground (arith, length-insert_text x (sorted_texts xs), length-sorted_texts xs)

module _ (stamp : ℕ → String) (is_alnum : Char → Bool) where
  length-terminals :
      (session_id : String) (now next : ℕ) (ids : List String)
      → length (terminals stamp session_id now next ids) ≡ length ids
  unfolding terminals
  length-terminals session_id now next [] = refl
  length-terminals session_id now next (i ∷ ids) =
      ap suc (length-terminals session_id now (suc next) ids)

  turns_balance :
      (session_id : String) (now : ℕ) (rs : List SessionRecord) (ids : List String) (s : Sessions)
      → let tally = (repair_turns stamp is_alnum session_id now rs ids s).0 in
        tally.issues ≡ tally.repaired
  unfolding repair_turns create_synthetic_terminals
  turns_balance session_id now rs [] s = refl
  turns_balance session_id now rs (i ∷ ids) s = ground (
    arith,
    length-terminals session_id now (next_after rs) (sorted_texts (i ∷ ids)),
    length-sorted_texts (i ∷ ids),
  )

  calls_balance :
      (session_id : String) (rs : List SessionRecord) (s : Sessions)
      → let tally = (repair_calls stamp is_alnum session_id rs s).0 in tally.issues ≡ tally.repaired
  unfolding repair_calls
  calls_balance session_id [] s = refl
  calls_balance session_id (r ∷ rs) s = refl

  records_balance :
      (session_id : String) (now later : ℕ) (rs : List SessionRecord) (s : Sessions)
      → let tally = (scan_records stamp is_alnum session_id now later rs s).0 in
        tally.issues ≡ tally.repaired
  unfolding scan_records
  records_balance session_id now later [] s = refl
  records_balance session_id now later (r ∷ rs) s =
      let after =
        repair_turns stamp is_alnum session_id now (r ∷ rs) (incomplete_turns (r ∷ rs)) s in
      omega (
        arith,
        turns_balance session_id now (r ∷ rs) (incomplete_turns (r ∷ rs)) s,
        calls_balance session_id (create_orphan_tool_results stamp session_id later after.1)
            after.2,
      )

  each_balance :
      (now later : String → ℕ) (ids : List String) (s : Sessions)
      → let tally = (scan_each stamp is_alnum now later ids s).0 in tally.issues ≡ tally.repaired
  unfolding scan_each scan_session
  each_balance now later [] s = refl
  each_balance now later (id ∷ ids) s = omega (
    arith,
    records_balance id (now id) (later id) (read_session is_alnum id s) s,
    each_balance now later ids (scan_session stamp is_alnum id (now id) (later id) s).1,
  )

  status_of_equal :
      (n m : ℕ)
      → n ≡ m
      → (status_of n m ≢ degraded)
        × ((status_of n m ≡ healthy) ↔ (n ≡ 0))
        × ((status_of n m ≡ recovered) ↔ (n ≢ 0))
  unfolding status_of
  status_of_equal zero m h =
      ((λ e. cc e), ((λ _. refl), (λ _. refl)), ((λ e. absurd (cc e)), (λ e. absurd (e refl))))
  status_of_equal (suc n) m h = (ground arith, ground arith, ground arith)

  -- A scan counts every issue that it finds as repaired, so that the marker is HEALTHY when it found
  -- none and RECOVERED exactly otherwise, and never DEGRADED; and no task that is listed afterwards is
  -- pending or running past its expiry.
  pub run_recovery_scan_lem :
      (at : Clocks) (stores : Stores)
      → let (marker, after) = run_recovery_scan stamp is_alnum at stores in
        (marker.issues_found ≡ marker.issues_repaired)
        × (marker.status ≢ degraded)
        × ((marker.status ≡ healthy) ↔ (marker.issues_found ≡ 0))
        × ((marker.status ≡ recovered) ↔ (marker.issues_found ≢ 0))
        × ((status : TaskStatus)
            → All (λ t. IsOverdue at.tasks_at t → ⊥) (list_by_status status after.tasks))
  unfolding run_recovery_scan scan_sessions scan_tasks
  run_recovery_scan_lem at stores =
      let sessions =
        (scan_sessions stamp is_alnum at.terminals_at at.results_at stores.sessions).0 in
      let tasks = (scan_tasks at.tasks_at stores.tasks).0 in
      let balance : sessions.issues + tasks.issues ≡ sessions.repaired + tasks.repaired = omega (
        arith,
        each_balance at.terminals_at at.results_at (list_sessions stores.sessions) stores.sessions,
      ) in
      let (not_degraded, healthy_iff, recovered_iff) = status_of_equal _ _ balance in
      (
        balance,
        not_degraded,
        healthy_iff,
        recovered_iff,
        (cleanup_expired_lem is_alnum at.tasks_at stores.tasks).3,
      )
