-- ===== src/Subagents/Worker.antt =====
-- One round of _worker_loop of src/assistant/subagents/coordinator.py.
use private_claw.Prelude.{
  ℕ, zero, suc, ◌+◌, ◌-◌, ◌≤◌, ◌≡◌, max, String, none, some, Bool, true, false, List, [], ◌∷◌,
  filter, not, length, if◌then◌else◌, ◌||◌, string_eq, arith, any, ◌&&◌, ◌==◌, ◌⊎◌, inl, inr, ◌∙◌,
  refl, Option-cases, Bool-cases, subst, sym, ap, length-filter-le,
}
use private_claw.Prelude.Dict.{Dict, lookup, insert, NodupKeys, lookup-insert, lookup-insert_self}
use private_claw.Store.Task.{TaskRecord, Tasks, pending, list_by_status}
use private_claw.Subagents.Limits.{is_delegation}

-- An asyncio task: the number under which it was made, which tells it from any other, and whether
-- it is done.
pub record WorkerTask : Type 0 where
  pub made : ℕ
  pub done : Bool

-- `_inflight`: for each task identifier, its worker
abbrev pub Inflight : Type 0
Inflight = Dict String WorkerTask

-- the worker that `create_task` makes
abbrev pub new_worker : ℕ → WorkerTask
new_worker made = record { made = made; done = false }

unfoldable pub is_inflight : String → Inflight → Bool
is_inflight id workers = elim (lookup id workers) [ none ↦ false | some _ ↦ true ]

unfoldable pub reap_finished_inflight : Inflight → Inflight
reap_finished_inflight = filter (λ e. not e.1.done)

-- The loop over the pending tasks, which breaks when no slot is left. The new workers are made under
-- the numbers from `made` on.
unfoldable pub start_pending : ℕ → ℕ → List TaskRecord → Inflight → Inflight
start_pending zero made tasks workers = workers
start_pending (suc slots) made [] workers = workers
start_pending (suc slots) made (t ∷ ts) workers =
    let skipped = start_pending (suc slots) made ts workers in
    let started = start_pending slots (suc made) ts (insert t.task_id (new_worker made) workers) in
    if not (is_delegation t) || is_inflight t.task_id workers then skipped else started

-- The subtraction stops at 0, as `max(0, ...)` makes it.
unfoldable pub worker_round : ℕ → ℕ → Tasks → Inflight → Inflight
unfolding reap_finished_inflight start_pending
worker_round max_workers made s workers =
    let running = reap_finished_inflight workers in
    start_pending (max_workers - length running) made (list_by_status pending s) running

length-insert-le :
    (id : String) (w : WorkerTask) (workers : Inflight)
    → length (insert id w workers) ≤ suc (length workers)
unfolding insert
length-insert-le id w [] = omega arith
length-insert-le id w (e ∷ workers) = ground (arith, length-insert-le id w workers)

length-insert_new :
    (id : String) (w : WorkerTask) (workers : Inflight)
    → lookup id workers ≡ none
    → length (insert id w workers) ≡ suc (length workers)
unfolding insert lookup
length-insert_new id w [] h = refl
length-insert_new id w (e ∷ workers) h = ground (arith, h, length-insert_new id w workers)

length-start_pending-le :
    (slots made : ℕ) (tasks : List TaskRecord) (workers : Inflight)
    → length (start_pending slots made tasks workers) ≤ slots + length workers
unfolding start_pending
length-start_pending-le zero made tasks workers = omega arith
length-start_pending-le (suc slots) made [] workers = omega arith
length-start_pending-le (suc slots) made (t ∷ ts) workers = ground (
  arith,
  length-start_pending-le (suc slots) made ts workers,
  length-start_pending-le slots (suc made) ts (insert t.task_id (new_worker made) workers),
  length-insert-le t.task_id (new_worker made) workers,
)

-- A worker that is in flight is not replaced.
start_pending-keeps :
    (slots made : ℕ) (tasks : List TaskRecord) (workers : Inflight) (id : String) (w : WorkerTask)
    → lookup id workers ≡ some w
    → lookup id (start_pending slots made tasks workers) ≡ some w
unfolding start_pending is_inflight
start_pending-keeps zero made tasks workers id w h = h
start_pending-keeps (suc slots) made [] workers id w h = h
start_pending-keeps (suc slots) made (t ∷ ts) workers id w h = ground (
  arith,
  h,
  start_pending-keeps (suc slots) made ts workers id w h,
  start_pending-keeps slots (suc made) ts (insert t.task_id (new_worker made) workers) id w,
  lookup-insert id t.task_id (new_worker made) workers,
)

-- An entry of the loop's result is one that was there, or a new worker for a pending delegation that
-- had none.
abbrev IsNew : List TaskRecord → Inflight → String → WorkerTask → Type 0
IsNew tasks workers id w =
    (any (λ t. is_delegation t && t.task_id == id) tasks ≡ true)
    × (lookup id workers ≡ none)
    × (w.done ≡ false)

start_pending-starts :
    (slots made : ℕ) (tasks : List TaskRecord) (workers : Inflight) (id : String) (w : WorkerTask)
    → lookup id (start_pending slots made tasks workers) ≡ some w
    → (lookup id workers ≡ some w) ⊎ IsNew tasks workers id w
unfolding start_pending is_inflight
start_pending-starts zero made tasks workers id w h = inl h
start_pending-starts (suc slots) made [] workers id w h = inl h
start_pending-starts (suc slots) made (t ∷ ts) workers id w h = ground (
  arith,
  h,
  start_pending-starts (suc slots) made ts workers id w,
  start_pending-starts slots (suc made) ts (insert t.task_id (new_worker made) workers) id w,
  lookup-insert id t.task_id (new_worker made) workers,
)

lookup-reap_absent :
    (id : String) (workers : Inflight)
    → lookup id workers ≡ none
    → lookup id (reap_finished_inflight workers) ≡ none
unfolding reap_finished_inflight lookup
lookup-reap_absent id [] h = refl
lookup-reap_absent id ((j, w) ∷ workers) h = ground (arith, lookup-reap_absent id workers)

lookup-reap :
    (workers : Inflight) (id : String) (w : WorkerTask)
    → NodupKeys workers
    → lookup id workers ≡ some w
    → lookup id (reap_finished_inflight workers) ≡ (if w.done then none else some w)
unfolding reap_finished_inflight lookup
lookup-reap [] id w u h = absurd (cc h)
lookup-reap ((j, v) ∷ workers) id w u h =
    ground (arith, h, u.0, lookup-reap_absent id workers, lookup-reap workers id w u.1)

-- what stays after the finished workers are taken out was there and is not done
reap_keeps_unfinished :
    (workers : Inflight) (id : String) (w : WorkerTask)
    → NodupKeys workers
    → lookup id (reap_finished_inflight workers) ≡ some w
    → (lookup id workers ≡ some w) × (w.done ≡ false)
reap_keeps_unfinished workers id w u h = elim (Option-cases (lookup id workers)) [
  | inl e ↦ absurd (cc (h, lookup-reap_absent id workers e))
  | inr (v, e) ↦ ground (arith, h, e, lookup-reap workers id v u e)
]

-- a delegation that has no worker
abbrev pub lacks_worker : Inflight → TaskRecord → Bool
lacks_worker workers t = is_delegation t && not (is_inflight t.task_id workers)

absent_of_not_inflight :
    (t : TaskRecord) (workers : Inflight)
    → (not (is_delegation t) || is_inflight t.task_id workers) ≡ false
    → lookup t.task_id workers ≡ none
unfolding is_inflight
absent_of_not_inflight t workers h = ground (arith, h)

skipped_lacks_none :
    (t : TaskRecord) (workers after : Inflight)
    → (not (is_delegation t) || is_inflight t.task_id workers) ≡ true
    → ((w : WorkerTask) → lookup t.task_id workers ≡ some w → lookup t.task_id after ≡ some w)
    → lacks_worker after t ≡ false
unfolding is_inflight
skipped_lacks_none t workers after h keeps = elim (Option-cases (lookup t.task_id workers)) [
  | inl e ↦ ground (arith, h, e)
  | inr (w, e) ↦ ground (arith, h, e, keeps w e)
]

started_lacks_none :
    (t : TaskRecord) (w : WorkerTask) (after : Inflight)
    → lookup t.task_id after ≡ some w
    → lacks_worker after t ≡ false
unfolding is_inflight
started_lacks_none t w after h = ground (arith, h)

-- no task lacks a worker, or as many as `slots` more are in flight
abbrev IsFilled : ℕ → List TaskRecord → Inflight → Inflight → Type 0
IsFilled slots tasks workers after =
    (any (lacks_worker after) tasks ≡ false) ⊎ (slots + length workers ≤ length after)

any_cons :
    (t : TaskRecord) (ts : List TaskRecord) (after : Inflight)
    → lacks_worker after t ≡ false
    → any (lacks_worker after) ts ≡ false
    → any (lacks_worker after) (t ∷ ts) ≡ false
any_cons t ts after h hs = rw h hs

-- The loop stops short of a pending delegation only when it has used every slot.
start_pending-IsFilled :
    (slots made : ℕ) (tasks : List TaskRecord) (workers : Inflight)
    → IsFilled slots tasks workers (start_pending slots made tasks workers)
unfolding start_pending
start_pending-IsFilled zero made tasks workers = inr (omega arith)
start_pending-IsFilled (suc slots) made [] workers = inl refl
start_pending-IsFilled (suc slots) made (t ∷ ts) workers =
    let w = new_worker made in
    let more = insert t.task_id w workers in
    let skipped = start_pending (suc slots) made ts workers in
    let started = start_pending slots (suc made) ts more in
    elim (Bool-cases (not (is_delegation t) || is_inflight t.task_id workers)) [
      | inl e ↦
          subst (IsFilled (suc slots) (t ∷ ts) workers)
            (sym (ap (λ b. if b then skipped else started) e))
            (elim (start_pending-IsFilled (suc slots) made ts workers) [
              | inl rest ↦
                  let kept = start_pending-keeps (suc slots) made ts workers t.task_id in
                  inl (any_cons t ts skipped (skipped_lacks_none t workers skipped e kept) rest)
              | inr full ↦ inr full
            ])
      | inr e ↦
          subst (IsFilled (suc slots) (t ∷ ts) workers)
            (sym (ap (λ b. if b then skipped else started) e))
            (elim (start_pending-IsFilled slots (suc made) ts more) [
              | inl rest ↦
                  let stays =
                    start_pending-keeps slots (suc made) ts more t.task_id w
                      (lookup-insert_self t.task_id w workers) in
                  inl (any_cons t ts started (started_lacks_none t w started stays) rest)
              | inr full ↦
                  let grown =
                    length-insert_new t.task_id w workers (absent_of_not_inflight t workers e) in
                  inr (omega (arith, full, grown))
            ])
    ]

-- the worker `w` of the round for a pending delegation that had none, or only one that is done
abbrev pub IsStarted : List TaskRecord → Inflight → String → WorkerTask → Type 0
IsStarted tasks workers id w =
    (any (λ t. is_delegation t && t.task_id == id) tasks ≡ true)
    × ((old : WorkerTask) → lookup id workers ≡ some old → old.done ≡ true)

reap-IsStarted :
    (tasks : List TaskRecord) (workers : Inflight) (id : String) (w : WorkerTask)
    → NodupKeys workers
    → IsNew tasks (reap_finished_inflight workers) id w
    → IsStarted tasks workers id w
reap-IsStarted tasks workers id w u (wanted, absent, _) =
    (wanted, (λ old h. ground (arith, absent, lookup-reap workers id old u h)))

-- A round of the loop never has more workers in flight than the limit or than there were before.
-- A worker that is not done stays in flight, itself and not another one in its place; those that are
-- done are gone; and every other worker is for a pending delegation that had none, or only one that
-- is done. A pending delegation has a worker afterwards unless as many as the limit are in flight.
pub worker_round_lem :
    (max_workers made : ℕ) (s : Tasks) (workers : Inflight)
    → NodupKeys workers
    → let after = worker_round max_workers made s workers in
      let tasks = list_by_status pending s in
      (length after ≤ max max_workers (length workers))
      × ((id : String) (w : WorkerTask)
          → lookup id workers ≡ some w
          → w.done ≡ false
          → lookup id after ≡ some w)
      × ((id : String) (w : WorkerTask)
          → lookup id after ≡ some w
          → (w.done ≡ false) × ((lookup id workers ≡ some w) ⊎ IsStarted tasks workers id w))
      × ((any (lacks_worker after) tasks ≡ false) ⊎ (max_workers ≤ length after))
unfolding worker_round
worker_round_lem max_workers made s workers u =
    let running = reap_finished_inflight workers in
    let slots = max_workers - length running in
    let short : length running ≤ length workers =
      unfold reap_finished_inflight in length-filter-le (λ e. not e.1.done) workers in
    let tasks = list_by_status pending s in
    (
      omega (arith, length-start_pending-le slots made tasks running, short),
      (λ id w h e.
          start_pending-keeps slots made tasks running id w
            (lookup-reap workers id w u h ∙ rw e refl)),
      (λ id w h. elim (start_pending-starts slots made tasks running id w h) [
        | inl stays ↦
            let (there, unfinished) = reap_keeps_unfinished workers id w u stays in
            (unfinished, inl there)
        | inr (wanted, absent, unfinished) ↦
            (unfinished, inr (reap-IsStarted tasks workers id w u (wanted, absent, unfinished)))
      ]),
      (elim (start_pending-IsFilled slots made tasks running) [
        | inl all ↦ inl all
        | inr full ↦ inr (omega (arith, full))
      ]),
    )
