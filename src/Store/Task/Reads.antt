-- ===== src/Store/Task/Reads.antt =====
-- What a read of the task directory meets after a write and after a cleanup.
use Prim.Native.Char.{Char}
use private_claw.Prelude.{
  ℕ, Bool, String, ◌≡◌, Option, none, some, [], ◌∷◌, arith, if◌then◌else◌, ◌==◌, string_eq, refl,
}
use private_claw.Prelude.Dict.{lookup, lookup-insert}
use private_claw.Store.Files.{malformed, holds, parsed}
use private_claw.Store.Task.{
  TaskRecord, Tasks, is_stale, as_expired, cleanup_expired, task_path, get, write_task,
}

-- the task that a cleanup leaves of one
abbrev pub swept_task : ℕ → TaskRecord → TaskRecord
swept_task now task = if is_stale now task then as_expired now task else task

abbrev pub swept : ℕ → Option TaskRecord → Option TaskRecord
swept now none = none
swept now (some task) = some (swept_task now task)

pub lookup-cleanup :
    (now : ℕ) (p : String) (s : Tasks)
    → parsed (lookup p (cleanup_expired now s).1) ≡ swept now (parsed (lookup p s))
unfolding cleanup_expired lookup
lookup-cleanup now p [] = refl
lookup-cleanup now p ((q, malformed) ∷ s) = ground (arith, lookup-cleanup now p s)
lookup-cleanup now p ((q, holds r) ∷ s) = ground (arith, lookup-cleanup now p s)

module _ (is_alnum : Char → Bool) where
  pub get-write :
      (id other : String) (task : TaskRecord) (s : Tasks)
      → get is_alnum other (write_task is_alnum id task s) ≡ (
          if task_path is_alnum id == task_path is_alnum other
          then some task
          else get is_alnum other s)
  unfolding get write_task
  get-write id other task s =
      ground
        (arith, lookup-insert (task_path is_alnum other) (task_path is_alnum id) (holds task) s)
