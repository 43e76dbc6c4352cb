-- ===== src/Store/Task/Samples.antt =====
-- Runs of the task store on small inputs.
use Prim.Native.Char.{Char}
use mathlib.Core.Bool.{false≢true}
use private_claw.Prelude.{
  Bool, String, ◌≡◌, ◌≢◌, refl, none, some, true, [], ◌∷◌, All, string_discrete, ℕ_discrete,
}
use private_claw.Prelude.Dict.{lookup, insert}
use private_claw.Store.Files.{malformed, holds}
use private_claw.Store.Session.{safe_id}
use private_claw.Store.Task.{
  TaskRecord, Tasks, TaskStatus, pending, running, is_stale, get, create, update_status, heartbeat,
  cleanup_expired, list_by_status, with_status, rewrite_task, rewrite_found, copy_task_with_updates,
  as_expired, write_task, task_path,
}
use private_claw.Store.Task.Status.{IsMoved, Rewrites, update_status_lem}
use private_claw.Store.Task.Cleanup.{IsEnded, IsOverdue, IsCleaned, cleanup_expired_lem}
use private_claw.Store.Task.Timed.{IsTimed, Reachable, get-IsTimed}

abbrev is_alnum : Char → Bool
is_alnum _ = true

abbrev research : TaskRecord
research = record {
  task_id = "t1";
  parent_session_id = some "s";
  parent_turn_id = none;
  task_type = "delegation";
  status = pending;
  created_at = 10;
  updated_at = 10;
  started_at = none;
  completed_at = none;
  last_heartbeat_at = none;
  ttl_seconds = some 5;
  expires_at = some 100;
  result = none;
  error = none;
  metadata = [];
}

abbrev directory : Tasks
directory = ("t1.json", holds research) ∷ ("torn.json", malformed) ∷ []

program : Unit {0}
unfolding create get update_status heartbeat cleanup_expired list_by_status with_status rewrite_task
    rewrite_found copy_task_with_updates as_expired is_stale write_task task_path safe_id lookup
    insert string_discrete ℕ_discrete
program = tt

created_then_read : (create is_alnum research []).1 ≡ ("t1.json", holds research) ∷ []
unfolding program
created_then_read = refl

expires_at_its_moment : (cleanup_expired 100 directory).0 ≡ as_expired 100 research ∷ []
unfolding program
expires_at_its_moment = refl

stays_before : (cleanup_expired 99 directory).0 ≡ []
unfolding program
stays_before = refl

update_status_lem_example :
    Rewrites is_alnum "t1"
      (with_status running none none 20)
      directory
      (update_status is_alnum "t1" running none none 20 directory)
    × ((task : TaskRecord) → IsMoved running 20 task (with_status running none none 20 task))
update_status_lem_example = update_status_lem is_alnum "t1" running none none 20 directory

cleanup_expired_lem_example :
    let (expired_tasks, s') = cleanup_expired 100 directory in
    ((id : String) → IsCleaned 100 (get is_alnum id directory) (get is_alnum id s'))
    × All (IsEnded 100) expired_tasks
    × (cleanup_expired 100 s' ≡ ([], s'))
    × ((status : TaskStatus) → All (λ t. IsOverdue 100 t → ⊥) (list_by_status status s'))
cleanup_expired_lem_example = cleanup_expired_lem is_alnum 100 directory

abbrev started : Tasks
started = (update_status is_alnum "t1" running none none 20 (create is_alnum research []).1).1

abbrev research_started : TaskRecord
research_started = with_status running none none 20 research

research-IsTimed : IsTimed research
research-IsTimed = record {
  ended = λ e. absurd (false≢true e);
  begun = λ e. absurd (not_running e);
}
  where
    not_running : pending ≢ running
    not_running = λ e. cc e

started_is_read : get is_alnum "t1" started ≡ some research_started
unfolding program
started_is_read = refl

get-IsTimed_example : IsTimed research_started
get-IsTimed_example =
    get-IsTimed is_alnum started "t1" research_started
      (Reachable.moved "t1" running none none 20
        (Reachable.created research research-IsTimed Reachable.empty))
      started_is_read
