-- ===== src/Store/Task/Timed.antt =====
-- The life of tasks in the store of src/assistant/store/filesystem/task.py.
use Prim.Native.Char.{Char}
use private_claw.Prelude.{
  sym, Bool-cases, ◌==◌, ◌⊎◌, ℕ, Bool, String, ◌≡◌, [], arith, true, false, some, Option, none,
  string_eq, inl, inr, subst,
}
use private_claw.Prelude.Dict.{insert, lookup, lookup-insert}
use private_claw.Store.Files.{holds, parsed}
use private_claw.Store.Records.{Payload}
use private_claw.Store.Task.{
  rewrite_found, TaskRecord, Tasks, TaskStatus, running, is_terminal_status, is_none, as_expired,
  cleanup_expired, get, create, update, update_status, heartbeat, rewrite_task, write_task,
  task_path, copy_task_with_updates, with_status, with_heartbeat, status_eq,
}
use private_claw.Store.Task.Reads.{swept, swept_task, lookup-cleanup}

-- A task in a terminal status has the moment of its end, a running one the moment of its start.
pub record IsTimed (task : TaskRecord) : Type 0 where
  pub ended : is_terminal_status task.status ≡ true → is_none task.completed_at ≡ false
  pub begun : task.status ≡ running → is_none task.started_at ≡ false

with_status-IsTimed :
    (status : TaskStatus) (error : Option String) (result : Option Payload) (now : ℕ)
    (task : TaskRecord)
    → IsTimed (with_status status error result now task)
unfolding with_status copy_task_with_updates
with_status-IsTimed status error result now task = record {
  ended = ground arith;
  begun = ground arith;
}

with_heartbeat-IsTimed :
    (now : ℕ) (task : TaskRecord) → IsTimed task → IsTimed (with_heartbeat now task)
unfolding with_heartbeat copy_task_with_updates
with_heartbeat-IsTimed now task h = record { ended = h.ended; begun = h.begun }

swept-IsTimed : (now : ℕ) (task : TaskRecord) → IsTimed task → IsTimed (swept_task now task)
unfolding as_expired copy_task_with_updates
swept-IsTimed now task h = record {
  ended = ground (arith, h.ended);
  begun = ground (arith, h.begun);
}

-- The directories that calls of the store lead to. A caller brings tasks of its own to `create` and
-- `update`.
pub data Reachable (is_alnum : Char → Bool) : Tasks → Type 0 where
  empty : Reachable is_alnum []
  created :
      {s : Tasks} (task : TaskRecord)
      → IsTimed task
      → Reachable is_alnum s
      → Reachable is_alnum (create is_alnum task s).1
  updated :
      {s : Tasks} (task : TaskRecord) (now : ℕ)
      → IsTimed task
      → Reachable is_alnum s
      → Reachable is_alnum (update is_alnum task now s).1
  moved :
      {s : Tasks} (id : String) (status : TaskStatus) (error : Option String)
      (result : Option Payload) (now : ℕ)
      → Reachable is_alnum s
      → Reachable is_alnum (update_status is_alnum id status error result now s).1
  beaten :
      {s : Tasks} (id : String) (now : ℕ)
      → Reachable is_alnum s
      → Reachable is_alnum (heartbeat is_alnum id now s).1
  cleaned :
      {s : Tasks} (now : ℕ) → Reachable is_alnum s → Reachable is_alnum (cleanup_expired now s).1

abbrev IsTimedIfAny : Option TaskRecord → Type 0
IsTimedIfAny none = Unit
IsTimedIfAny (some task) = IsTimed task

-- every task on file is timed
abbrev AreTimed : Tasks → Type 0
AreTimed s = (path : String) → IsTimedIfAny (parsed (lookup path s))

insert-AreTimed :
    (p : String) (task : TaskRecord) (s : Tasks)
    → IsTimed task
    → AreTimed s
    → AreTimed (insert p (holds task) s)
insert-AreTimed p task s h a path =
    subst (λ o. IsTimedIfAny (parsed o)) (sym (lookup-insert path p (holds task) s))
      (elim (Bool-cases (p == path)) [ inl e ↦ rw e h | inr e ↦ rw e (a path) ])

cleanup-AreTimed : (now : ℕ) (s : Tasks) → AreTimed s → AreTimed (cleanup_expired now s).1
cleanup-AreTimed now s a path =
    subst IsTimedIfAny (sym (lookup-cleanup now path s)) (go (parsed (lookup path s)) (a path))
  where
    go : (o : Option TaskRecord) → IsTimedIfAny o → IsTimedIfAny (swept now o)
    go none h = tt
    go (some task) h = swept-IsTimed now task h

rewrite_found-AreTimed :
    (is_alnum : Char → Bool) (id : String) (change : TaskRecord → TaskRecord) (s : Tasks)
    (found : Option TaskRecord)
    → ((task : TaskRecord) → IsTimed task → IsTimed (change task))
    → IsTimedIfAny found
    → AreTimed s
    → AreTimed (rewrite_found is_alnum id change s found).1
unfolding rewrite_found write_task
rewrite_found-AreTimed is_alnum id change s none f h a = a
rewrite_found-AreTimed is_alnum id change s (some task) f h a =
    insert-AreTimed (task_path is_alnum id) (change task) s (f task h) a

create-cases :
    (is_alnum : Char → Bool) (task : TaskRecord) (s : Tasks)
    → ((create is_alnum task s).1 ≡ s)
      ⊎ ((create is_alnum task s).1 ≡ write_task is_alnum task.task_id task s)
unfolding create
create-cases is_alnum task s = ground arith

update-cases :
    (is_alnum : Char → Bool) (task : TaskRecord) (now : ℕ) (s : Tasks)
    → ((update is_alnum task now s).1 ≡ s)
      ⊎ ((update is_alnum task now s).1
          ≡ write_task is_alnum task.task_id (record task { updated_at = now }) s)
unfolding update copy_task_with_updates
update-cases is_alnum task now s = ground arith

Reachable-AreTimed : (is_alnum : Char → Bool) {s : Tasks} → Reachable is_alnum s → AreTimed s
unfolding update_status heartbeat rewrite_task write_task get lookup
Reachable-AreTimed is_alnum Reachable.empty = λ path. tt
Reachable-AreTimed is_alnum (Reachable.created {s = s} task h r) =
    elim (create-cases is_alnum task s) [
      | inl e ↦ subst AreTimed (sym e) (Reachable-AreTimed is_alnum r)
      | inr e ↦ subst AreTimed (sym e) (insert-AreTimed _ task s h (Reachable-AreTimed is_alnum r))
    ]
Reachable-AreTimed is_alnum (Reachable.updated {s = s} task now h r) =
    elim (update-cases is_alnum task now s) [
      | inl e ↦ subst AreTimed (sym e) (Reachable-AreTimed is_alnum r)
      | inr e ↦ subst AreTimed (sym e) (
          insert-AreTimed _ (record task { updated_at = now }) s
            (record { ended = h.ended; begun = h.begun }) (Reachable-AreTimed is_alnum r))
    ]
Reachable-AreTimed is_alnum (Reachable.moved {s = s} id status error result now r) =
    let a = Reachable-AreTimed is_alnum r in
    rewrite_found-AreTimed is_alnum id (with_status status error result now) s _
      (λ task _. with_status-IsTimed status error result now task) (a (task_path is_alnum id)) a
Reachable-AreTimed is_alnum (Reachable.beaten {s = s} id now r) =
    let a = Reachable-AreTimed is_alnum r in
    rewrite_found-AreTimed is_alnum id (with_heartbeat now) s _ (with_heartbeat-IsTimed now)
      (a (task_path is_alnum id)) a
Reachable-AreTimed is_alnum (Reachable.cleaned {s = s} now r) =
    cleanup-AreTimed now s (Reachable-AreTimed is_alnum r)

-- Whatever calls of the store led to a directory, each task that it gives in a terminal status has
-- the moment of its end, and each running one the moment of its start, if that holds of the
-- tasks that callers brought to `create` and `update`.
pub get-IsTimed :
    (is_alnum : Char → Bool) (s : Tasks) (id : String) (task : TaskRecord)
    → Reachable is_alnum s
    → get is_alnum id s ≡ some task
    → IsTimed task
unfolding get
get-IsTimed is_alnum s id task r e =
    subst IsTimedIfAny e (Reachable-AreTimed is_alnum r (task_path is_alnum id))
