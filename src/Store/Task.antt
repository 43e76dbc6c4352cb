-- ===== src/Store/Task.antt =====
-- FilesystemTaskStore of src/assistant/store/filesystem/task.py: one file for a task of a sub-agent
-- or of the scheduler. The store has one asyncio lock, so an operation that writes is one step on
-- the directory. The reading of `datetime.now` is an argument.
pub mod Reads
pub mod Status
pub mod Cleanup
pub mod Timed
mod Samples
use Prim.Native.Char.{Char}
use Prim.Native.String.{◌++◌}
use private_claw.Prelude.{
  ℕ, String, Option, none, some, Bool, true, false, List, [], ◌∷◌, leb, if◌then◌else◌, ◌==◌, ◌&&◌,
  Eq, string_eq,
}
use private_claw.Prelude.Dict.{Dict, lookup, insert}
use private_claw.Store.Files.{Document, malformed, holds, parsed}
use private_claw.Store.Records.{Payload}
use private_claw.Store.Session.{safe_id}

pub data TaskStatus : Type 0 where
  pending running completed failed cancelled expired : TaskStatus

abbrev pub TaskStatus-discrete : Discrete TaskStatus
TaskStatus-discrete = hlevel

instance abbrev pub status_eq : Eq TaskStatus
status_eq = record { dec = TaskStatus-discrete }

pub record TaskRecord : Type 0 where
  pub task_id : String
  pub parent_session_id : Option String
  pub parent_turn_id : Option String
  pub task_type : String
  pub status : TaskStatus
  pub created_at : ℕ
  pub updated_at : ℕ
  pub started_at : Option ℕ
  pub completed_at : Option ℕ
  pub last_heartbeat_at : Option ℕ
  pub ttl_seconds : Option ℕ
  pub expires_at : Option ℕ
  pub result : Option Payload
  pub error : Option String
  pub metadata : Payload

abbrev pub Tasks : Type 0
Tasks = Dict String (Document TaskRecord)

-- what `create` and `update` return, or the ValueError that they raise
pub data Stored : Type 0 where
  stored : TaskRecord → Stored
  already_exists not_found : Stored

-- `status in terminal_statuses`
abbrev pub is_terminal_status : TaskStatus → Bool
is_terminal_status pending = false
is_terminal_status running = false
is_terminal_status _ = true

-- `new if new is not None else old`
abbrev pub or_old {ℓ} : {A : Type ℓ} → Option A → A → A
or_old none old = old
or_old (some new) old = new

abbrev pub or_kept {ℓ} : {A : Type ℓ} → Option A → Option A → Option A
or_kept none old = old
or_kept (some new) old = some new

-- the arguments of `_copy_task_with_updates` after the task
pub record Updates : Type 0 where
  pub status : Option TaskStatus
  pub updated_at : Option ℕ
  pub started_at : Option ℕ
  pub completed_at : Option ℕ
  pub last_heartbeat_at : Option ℕ
  pub result : Option Payload
  pub error : Option String

abbrev pub no_updates : Updates
no_updates = record {
  status = none;
  updated_at = none;
  started_at = none;
  completed_at = none;
  last_heartbeat_at = none;
  result = none;
  error = none;
}

unfoldable pub copy_task_with_updates : TaskRecord → Updates → TaskRecord
copy_task_with_updates task u = record task {
  status = or_old u.status task.status;
  updated_at = or_old u.updated_at task.updated_at;
  started_at = or_kept u.started_at task.started_at;
  completed_at = or_kept u.completed_at task.completed_at;
  last_heartbeat_at = or_kept u.last_heartbeat_at task.last_heartbeat_at;
  result = or_kept u.result task.result;
  error = or_kept u.error task.error;
}

abbrev pub is_none {ℓ} : {A : Type ℓ} → Option A → Bool
is_none none = true
is_none (some _) = false

-- the record that `update_status` writes
unfoldable pub with_status :
    TaskStatus → Option String → Option Payload → ℕ → TaskRecord → TaskRecord
unfolding copy_task_with_updates
with_status status error result now task = copy_task_with_updates task record {
  status = some status;
  updated_at = some now;
  started_at = if status == running && is_none task.started_at then some now else none;
  completed_at = if is_terminal_status status then some now else none;
  last_heartbeat_at = none;
  result = result;
  error = error;
}

-- the record that `heartbeat` writes
unfoldable pub with_heartbeat : ℕ → TaskRecord → TaskRecord
unfolding copy_task_with_updates
with_heartbeat now task =
    copy_task_with_updates task
      record no_updates { updated_at = some now; last_heartbeat_at = some now }

-- `task.expires_at is not None and now >= task.expires_at`
abbrev pub is_due : ℕ → Option ℕ → Bool
is_due now none = false
is_due now (some moment) = leb moment now

-- the test of `cleanup_expired`, both of its `continue`s included
unfoldable pub is_stale : ℕ → TaskRecord → Bool
is_stale now task = if is_terminal_status task.status then false else is_due now task.expires_at

-- the record that `cleanup_expired` writes
unfoldable pub as_expired : ℕ → TaskRecord → TaskRecord
unfolding copy_task_with_updates
as_expired now task = copy_task_with_updates task record no_updates {
  status = some expired;
  updated_at = some now;
  completed_at = some now;
  error = some "Task expired";
}

unfoldable pub list_by_status : TaskStatus → Tasks → List TaskRecord
list_by_status status [] = []
list_by_status status ((path, malformed) ∷ s) = list_by_status status s
list_by_status status ((path, holds task) ∷ s) =
    let rest = list_by_status status s in if task.status == status then task ∷ rest else rest

abbrev pub is_some_text : Option String → String → Bool
is_some_text none s = false
is_some_text (some t) s = t == s

unfoldable pub list_by_session : String → Tasks → List TaskRecord
list_by_session session_id [] = []
list_by_session session_id ((path, malformed) ∷ s) = list_by_session session_id s
list_by_session session_id ((path, holds task) ∷ s) =
    let rest = list_by_session session_id s in
    if is_some_text task.parent_session_id session_id then task ∷ rest else rest

unfoldable pub cleanup_expired : ℕ → Tasks → List TaskRecord × Tasks
unfolding is_stale as_expired
cleanup_expired now [] = ([], [])
cleanup_expired now ((path, malformed) ∷ s) =
    let (expired_tasks, rest) = cleanup_expired now s in (expired_tasks, (path, malformed) ∷ rest)
cleanup_expired now ((path, holds task) ∷ s) =
    let (expired_tasks, rest) = cleanup_expired now s in
    if is_stale now task
    then (as_expired now task ∷ expired_tasks, (path, holds (as_expired now task)) ∷ rest)
    else (expired_tasks, (path, holds task) ∷ rest)

-- `is_alnum` is `str.isalnum` of one character.
module _ (is_alnum : Char → Bool) where
  unfoldable pub task_path : String → String
  task_path task_id = safe_id is_alnum task_id ++ ".json"

  unfoldable pub get : String → Tasks → Option TaskRecord
  get task_id s = parsed (lookup (task_path task_id) s)

  -- `atomic_write_text(path, self._serialize_task(updated))`
  unfoldable pub write_task : String → TaskRecord → Tasks → Tasks
  write_task task_id task s = insert (task_path task_id) (holds task) s

  unfoldable pub create : TaskRecord → Tasks → Stored × Tasks
  create task s = elim (lookup (task_path task.task_id) s) [
    | some _ ↦ (already_exists, s)
    | none ↦ (stored task, write_task task.task_id task s)
  ]

  unfoldable pub update : TaskRecord → ℕ → Tasks → Stored × Tasks
  unfolding copy_task_with_updates
  update task now s =
      let updated = copy_task_with_updates task record no_updates { updated_at = some now } in
      elim (lookup (task_path task.task_id) s) [
        | none ↦ (not_found, s)
        | some _ ↦ (stored updated, write_task task.task_id updated s)
      ]

  -- the end of `update_status` and `heartbeat`, once they have looked for the task
  unfoldable pub rewrite_found :
      String → (TaskRecord → TaskRecord) → Tasks → Option TaskRecord → Option TaskRecord × Tasks
  rewrite_found task_id change s none = (none, s)
  rewrite_found task_id change s (some task) =
      (some (change task), write_task task_id (change task) s)

  unfoldable pub rewrite_task :
      String → (TaskRecord → TaskRecord) → Tasks → Option TaskRecord × Tasks
  unfolding rewrite_found
  rewrite_task task_id change s = rewrite_found task_id change s (get task_id s)

  unfoldable pub update_status :
      String → TaskStatus → Option String → Option Payload → ℕ → Tasks → Option TaskRecord × Tasks
  unfolding with_status rewrite_task
  update_status task_id status error result now s =
      rewrite_task task_id (with_status status error result now) s

  unfoldable pub heartbeat : String → ℕ → Tasks → Option TaskRecord × Tasks
  unfolding with_heartbeat rewrite_task
  heartbeat task_id now s = rewrite_task task_id (with_heartbeat now) s
