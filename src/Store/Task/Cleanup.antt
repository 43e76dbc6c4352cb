-- ===== src/Store/Task/Cleanup.antt =====
-- The cleanup of src/assistant/store/filesystem/task.py.
use Prim.Native.Char.{Char}
use private_claw.Prelude.{
  ℕ, ◌≤◌, Bool, String, ◌≡◌, [], ◌∷◌, All, arith, refl, true, false, some, none, Option, ◌⊎◌, inl,
  inr, Option-cases, Bool-cases, sym, ap, subst, All-map,
}
use private_claw.Store.Files.{malformed, holds}
use private_claw.Store.Task.{
  TaskRecord, Tasks, TaskStatus, pending, running, completed, failed, cancelled, expired,
  is_terminal_status, is_stale, as_expired, cleanup_expired, get, list_by_status,
  copy_task_with_updates,
}
use private_claw.Store.Task.Reads.{swept, lookup-cleanup}

cleanup_twice :
    (now : ℕ) (s : Tasks)
    → cleanup_expired now (cleanup_expired now s).1 ≡ ([], (cleanup_expired now s).1)
unfolding cleanup_expired is_stale as_expired copy_task_with_updates
cleanup_twice now [] = refl
cleanup_twice now ((p, malformed) ∷ s) = ground (arith, cleanup_twice now s)
cleanup_twice now ((p, holds task) ∷ s) = ground (arith, cleanup_twice now s)

abbrev pub IsEnded : ℕ → TaskRecord → Type 0
IsEnded now task = (task.status ≡ expired) × (task.completed_at ≡ some now)

cleanup-IsEnded : (now : ℕ) (s : Tasks) → All (IsEnded now) (cleanup_expired now s).0
unfolding cleanup_expired as_expired copy_task_with_updates
cleanup-IsEnded now [] = tt
cleanup-IsEnded now ((p, malformed) ∷ s) = cleanup-IsEnded now s
cleanup-IsEnded now ((p, holds task) ∷ s) = ground (arith, cleanup-IsEnded now s)

-- The task is pending or running, and its expiry is not after the moment.
abbrev pub IsOverdue : ℕ → TaskRecord → Type 0
IsOverdue now task =
    (moment : ℕ) × (task.expires_at ≡ some moment)
    × (moment ≤ now)
    × ((task.status ≡ pending) ⊎ (task.status ≡ running))

-- the task EXPIRED at the moment
abbrev pub ended_at : ℕ → TaskRecord → TaskRecord
ended_at now task = record task {
  status = expired;
  updated_at = now;
  completed_at = some now;
  error = some "Task expired";
}

open_status :
    (status : TaskStatus)
    → is_terminal_status status ≡ false
    → (status ≡ pending) ⊎ (status ≡ running)
open_status pending h = inl refl
open_status running h = inr refl
open_status completed h = absurd (cc h)
open_status failed h = absurd (cc h)
open_status cancelled h = absurd (cc h)
open_status expired h = absurd (cc h)

stale_only_when_late : (now : ℕ) (task : TaskRecord) → is_stale now task ≡ true → IsOverdue now task
unfolding is_stale
stale_only_when_late now task h = elim (Option-cases task.expires_at) [
  | inl e ↦ absurd (ground (arith, e, h))
  | inr (m, e) ↦ (m, e, ground (arith, e, h), open_status task.status (ground (arith, h)))
]

late_then_stale : (now : ℕ) (task : TaskRecord) → IsOverdue now task → is_stale now task ≡ true
unfolding is_stale
late_then_stale now task (m, e, le, inl s) = rw (e, s) (ground arith)
late_then_stale now task (m, e, le, inr s) = rw (e, s) (ground arith)

not_late : (now : ℕ) (task : TaskRecord) → is_stale now task ≡ false → IsOverdue now task → ⊥
not_late now task h o = cc (h, late_then_stale now task o)

as_expired_lem : (now : ℕ) (task : TaskRecord) → as_expired now task ≡ ended_at now task
unfolding as_expired copy_task_with_updates
as_expired_lem now task = refl

listed_is_live :
    (now : ℕ) (status : TaskStatus) (s : Tasks)
    → All (λ t. is_stale now t ≡ false) (list_by_status status (cleanup_expired now s).1)
unfolding cleanup_expired list_by_status is_stale as_expired copy_task_with_updates
listed_is_live now status [] = tt
listed_is_live now status ((p, malformed) ∷ s) = listed_is_live now status s
listed_is_live now status ((p, holds task) ∷ s) = ground (arith, listed_is_live now status s)

-- what a cleanup makes of the task under an identifier
abbrev pub IsCleaned : ℕ → Option TaskRecord → Option TaskRecord → Type 0
IsCleaned now before after =
    (before ≡ none → after ≡ none)
    × ((task : TaskRecord)
        → before ≡ some task
        → (IsOverdue now task → after ≡ some (ended_at now task))
          × ((IsOverdue now task → ⊥) → after ≡ some task))

swept-IsCleaned : (now : ℕ) (before : Option TaskRecord) → IsCleaned now before (swept now before)
swept-IsCleaned now before = (
  λ h. rw h refl,
  λ task h. (
    λ o. rw (h, late_then_stale now task o) (ap some (as_expired_lem now task)),
    λ live. rw h (elim (Bool-cases (is_stale now task)) [
      | inl e ↦ absurd (live (stale_only_when_late now task e))
      | inr e ↦ rw e refl
    ]),
  ),
)

-- A cleanup turns exactly the tasks that are pending or running and whose expiry is not after its
-- clock into EXPIRED ones, which have ended at its clock with the error "Task expired", and leaves
-- every other task as it was. The tasks that it returns are EXPIRED. A second one at the same clock
-- finds nothing, and no task that is listed afterwards is pending or running past its expiry.
pub cleanup_expired_lem :
    (is_alnum : Char → Bool) (now : ℕ) (s : Tasks)
    → let (expired_tasks, s') = cleanup_expired now s in
      ((id : String) → IsCleaned now (get is_alnum id s) (get is_alnum id s'))
      × All (IsEnded now) expired_tasks
      × (cleanup_expired now s' ≡ ([], s'))
      × ((status : TaskStatus) → All (λ t. IsOverdue now t → ⊥) (list_by_status status s'))
unfolding get
cleanup_expired_lem is_alnum now s = (
  (λ id.
      subst (IsCleaned now (get is_alnum id s)) (sym (lookup-cleanup now _ s))
        (swept-IsCleaned now (get is_alnum id s))),
  cleanup-IsEnded now s,
  cleanup_twice now s,
  (λ status.
      All-map (λ t. is_stale now t ≡ false) (λ t. IsOverdue now t → ⊥) _ (not_late now)
        (listed_is_live now status s)),
)
