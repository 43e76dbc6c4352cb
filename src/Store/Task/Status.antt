-- ===== src/Store/Task/Status.antt =====
-- `create`, `update_status` and `heartbeat` of src/assistant/store/filesystem/task.py.
use Prim.Native.Char.{Char}
use private_claw.Prelude.{
  ℕ, Bool, String, ◌≡◌, ◌≢◌, Option, none, some, arith, if◌then◌else◌, ◌==◌, string_eq, refl, true,
  false,
}
use private_claw.Store.Records.{Payload}
use private_claw.Store.Task.{
  heartbeat, with_heartbeat, rewrite_found, status_eq, TaskRecord, Tasks, TaskStatus, running,
  is_terminal_status, is_none, task_path, get, update_status, rewrite_task, with_status,
  copy_task_with_updates,
}
use private_claw.Store.Task.Reads.{get-write}

-- What `update_status` makes of a task: the status asked for; the moment as `updated_at`; for a
-- terminal status, and only for one, the moment as `completed_at`; a `started_at` that is set by
-- the first RUNNING status and is never changed afterwards; and the same identity.
pub record IsMoved (status : TaskStatus) (now : ℕ) (old new : TaskRecord) : Type 0 where
  pub moved : new.status ≡ status
  pub touched : new.updated_at ≡ now
  pub ended : new.completed_at ≡ (if is_terminal_status status then some now else old.completed_at)
  pub begun : is_none old.started_at ≡ false → new.started_at ≡ old.started_at
  pub begins :
      is_none old.started_at ≡ true
      → new.started_at ≡ (if status == running then some now else old.started_at)
  pub same :
      (new.task_id ≡ old.task_id)
      × (new.created_at ≡ old.created_at)
      × (new.expires_at ≡ old.expires_at)

with_status_lem :
    (status : TaskStatus) (error : Option String) (result : Option Payload) (now : ℕ)
    (task : TaskRecord)
    → IsMoved status now task (with_status status error result now task)
unfolding with_status copy_task_with_updates
with_status_lem status error result now task = record {
  moved = refl;
  touched = refl;
  ended = ground arith;
  begun = ground arith;
  begins = ground arith;
  same = (refl, refl, refl);
}

-- What a change of one task does: the returned task is the one on file afterwards; without a task
-- on file there is no effect; and the tasks of other files are left alone.
pub record Rewrites (is_alnum : Char → Bool) (id : String) (change : TaskRecord → TaskRecord)
    (s : Tasks) (after : Option TaskRecord × Tasks) : Type 0 where
  pub present :
      (task : TaskRecord)
      → get is_alnum id s ≡ some task
      → (after.0 ≡ some (change task)) × (get is_alnum id after.1 ≡ some (change task))
  pub absent : get is_alnum id s ≡ none → after ≡ (none, s)
  pub others :
      (other : String)
      → task_path is_alnum id ≢ task_path is_alnum other
      → get is_alnum other after.1 ≡ get is_alnum other s

rewrite_task_lem :
    (is_alnum : Char → Bool) (id : String) (change : TaskRecord → TaskRecord) (s : Tasks)
    → Rewrites is_alnum id change s (rewrite_task is_alnum id change s)
unfolding rewrite_task rewrite_found
rewrite_task_lem is_alnum id change s = record {
  present = λ task h. ground (arith, get-write is_alnum id id (change task) s);
  absent = λ h. ground arith;
  others = λ other h. grind (arith, get-write is_alnum);
}

-- `update_status` is such a change, to a task moved by IsMoved.
pub update_status_lem :
    (is_alnum : Char → Bool) (id : String) (status : TaskStatus) (error : Option String)
    (result : Option Payload) (now : ℕ) (s : Tasks)
    → Rewrites is_alnum id
        (with_status status error result now)
        s
        (update_status is_alnum id status error result now s)
      × ((task : TaskRecord) → IsMoved status now task (with_status status error result now task))
unfolding update_status
update_status_lem is_alnum id status error result now s = (
  rewrite_task_lem is_alnum id (with_status status error result now) s,
  with_status_lem status error result now,
)

pub heartbeat-Rewrites :
    (is_alnum : Char → Bool) (id : String) (now : ℕ) (s : Tasks)
    → Rewrites is_alnum id (with_heartbeat now) s (heartbeat is_alnum id now s)
unfolding heartbeat
heartbeat-Rewrites is_alnum id now s = rewrite_task_lem is_alnum id (with_heartbeat now) s
