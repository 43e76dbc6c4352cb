-- ===== src/Store/Recovery/Scan.antt =====
-- The scans of sessions and tasks and the whole of run_recovery_scan, in
-- src/assistant/store/facade.py. The marker's file is not modelled.
use Prim.Native.Char.{Char}
use private_claw.Prelude.{
  ℕ, zero, suc, ◌+◌, String, Bool, List, [], ◌∷◌, ◌++◌, length, if◌then◌else◌, ◌==◌, nat_eq,
}
use private_claw.Store.Records.{SessionRecord}
use private_claw.Store.Session.{Sessions, append_raw, read_session, list_sessions}
use private_claw.Store.Task.{Tasks, pending, running, list_by_status}
use private_claw.Store.Idempotency.{Ledger}
use private_claw.Store.Recovery.{
  RecoveryStatus, healthy, recovered, degraded, Detail, repaired_turns, repaired_calls,
  expired_tasks, stale_tasks, expired_idempotency, RecoveryMarker, incomplete_turns,
  create_synthetic_terminals, create_orphan_tool_results,
}

-- what a scan returns: `issues, repaired, details`
pub record Tally : Type 0 where
  pub issues : ℕ
  pub repaired : ℕ
  pub details : List Detail

abbrev pub nothing : Tally
nothing = record { issues = 0; repaired = 0; details = [] }

abbrev pub plus : Tally → Tally → Tally
plus a b = record {
  issues = a.issues + b.issues;
  repaired = a.repaired + b.repaired;
  details = a.details ++ b.details;
}

abbrev pub when_some : ℕ → Detail → List Detail
when_some zero d = []
when_some (suc n) d = d ∷ []

unfoldable pub scan_tasks : ℕ → Tasks → Tally × Tasks
scan_tasks now s =
    let (ended, s') = private_claw.Store.Task.cleanup_expired now s in
    let stale = length (list_by_status running s') + length (list_by_status pending s') in
    (
      record {
        issues = length ended;
        repaired = length ended;
        details =
            when_some (length ended) (expired_tasks (length ended))
            ++ when_some stale (stale_tasks stale);
      },
      s',
    )

unfoldable pub status_of : ℕ → ℕ → RecoveryStatus
status_of zero repaired = healthy
status_of (suc n) repaired = if suc n == repaired then recovered else degraded

pub record Stores : Type 0 where
  pub sessions : Sessions
  pub tasks : Tasks
  pub idempotency : Ledger

-- the readings of the clock during a scan
pub record Clocks : Type 0 where
  pub terminals_at : String → ℕ
  pub results_at : String → ℕ
  pub tasks_at : ℕ
  pub ledger_at : String → ℕ
  pub marker_at : ℕ

module _ (stamp : ℕ → String) (is_alnum : Char → Bool) where
  -- the branch of `_scan_sessions` for incomplete turns, and the records that it goes on with
  unfoldable pub repair_turns :
      String
      → ℕ
      → List SessionRecord
      → List String
      → Sessions
      → Tally × List SessionRecord × Sessions
  repair_turns session_id now records [] s = (nothing, records, s)
  repair_turns session_id now records (t ∷ ts) s =
      let repairs = create_synthetic_terminals stamp session_id now records (t ∷ ts) in
      let s' = (append_raw is_alnum repairs s).1 in
      (
        record {
          issues = length (t ∷ ts);
          repaired = length repairs;
          details = repaired_turns session_id (length repairs) ∷ [];
        },
        read_session is_alnum session_id s',
        s',
      )

  -- the branch for orphan tool calls
  unfoldable pub repair_calls : String → List SessionRecord → Sessions → Tally × Sessions
  repair_calls session_id [] s = (nothing, s)
  repair_calls session_id (r ∷ rs) s = (
    record {
      issues = length (r ∷ rs);
      repaired = length (r ∷ rs);
      details = repaired_calls session_id (length (r ∷ rs)) ∷ [];
    },
    (append_raw is_alnum (r ∷ rs) s).1,
  )

  unfoldable pub scan_records :
      String → (now later : ℕ) → List SessionRecord → Sessions → Tally × Sessions
  unfolding repair_turns repair_calls
  scan_records session_id now later [] s = (nothing, s)
  scan_records session_id now later (r ∷ rs) s =
      let (turns, records, s₁) =
        repair_turns session_id now (r ∷ rs) (incomplete_turns (r ∷ rs)) s in
      let (calls, s₂) =
        repair_calls session_id (create_orphan_tool_results stamp session_id later records) s₁ in
      (plus turns calls, s₂)

  -- one round of the loop of `_scan_sessions`
  unfoldable pub scan_session : String → (now later : ℕ) → Sessions → Tally × Sessions
  unfolding scan_records
  scan_session session_id now later s =
      scan_records session_id now later (read_session is_alnum session_id s) s

  -- `now` and `later` are the clocks of a session's two repairs.
  unfoldable pub scan_each : (now later : String → ℕ) → List String → Sessions → Tally × Sessions
  unfolding scan_session
  scan_each now later [] s = (nothing, s)
  scan_each now later (session_id ∷ ids) s =
      let (first, s₁) = scan_session session_id (now session_id) (later session_id) s in
      let (rest, s₂) = scan_each now later ids s₁ in (plus first rest, s₂)

  unfoldable pub scan_sessions : (now later : String → ℕ) → Sessions → Tally × Sessions
  unfolding scan_each
  scan_sessions now later s = scan_each now later (list_sessions s) s

  unfoldable pub run_recovery_scan : Clocks → Stores → RecoveryMarker × Stores
  unfolding scan_sessions scan_tasks status_of
  run_recovery_scan at stores =
      let (by_sessions, sessions) = scan_sessions at.terminals_at at.results_at stores.sessions in
      let (by_tasks, tasks) = scan_tasks at.tasks_at stores.tasks in
      let (removed, ledger) =
        private_claw.Store.Idempotency.cleanup_expired at.ledger_at stores.idempotency in
      let found = plus by_sessions by_tasks in
      (
        record {
          component = "store_facade";
          last_scan_at = at.marker_at;
          status = status_of found.issues found.repaired;
          issues_found = found.issues;
          issues_repaired = found.repaired;
          details = found.details ++ when_some removed (expired_idempotency removed);
        },
        record { sessions = sessions; tasks = tasks; idempotency = ledger },
      )
