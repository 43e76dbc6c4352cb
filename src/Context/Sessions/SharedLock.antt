-- ===== src/Context/Sessions/SharedLock.antt =====
-- The lock of a session, as src/assistant/core/session/context.py takes and gives it back.
use private_claw.Prelude.{
  ℕ, String, ◌≡◌, ◌≢◌, ◌⊎◌, refl, Option, none, some, Bool, true, string_eq, inl, inr, ap, sym,
  subst,
}
use private_claw.Store.Lock.{LockRecord, Locks, acquire, read_lock_record}
use private_claw.Store.Lock.Reads.{acquire_cases, acquire_own, release_own}
use private_claw.Context.Metadata.{active}
use private_claw.Context.Sessions.{SessionContext, lock_key_of, lock_owner_of, enter, entered, exit}

module _ (digest : String → String) (fallback : ℕ) where
  -- the lock of the session is on disk, with the owner that every context of the session has
  pub record IsHeld (session_id : String) (locks : Locks) : Type 0 where
    pub lock : LockRecord
    pub on_disk : read_lock_record digest locks (lock_key_of session_id) ≡ some lock
    pub owned : lock.owner_id ≡ lock_owner_of session_id

  abbrev pub held_context : ℕ → SessionContext → SessionContext
  held_context now ctx = record {
    metadata = ctx.metadata;
    state = record ctx.state { status = active; last_activity_at = now };
    lock_acquired = true;
    lock_owner = lock_owner_of ctx.metadata.session_id;
  }

  entered-some :
      (now : ℕ) (ctx : SessionContext) (p : Option LockRecord × Locks) (r : LockRecord)
      → p.0 ≡ some r
      → entered digest fallback now ctx p ≡ (some (held_context now ctx), p.1)
  unfolding entered
  entered-some now ctx (none, locks) r h = absurd (cc h)
  entered-some now ctx (some _, locks) r h = refl

  -- `_enter` fails and changes nothing, or the lock is held and the context knows its owner.
  pub enter_cases :
      (seen now : ℕ) (ctx : SessionContext) (locks : Locks)
      → let session_id = ctx.metadata.session_id in
        (enter digest fallback seen now ctx locks ≡ (none, locks))
        ⊎ ((ctx' : SessionContext) × ((enter digest fallback seen now ctx locks).0 ≡ some ctx')
            × IsHeld session_id (enter digest fallback seen now ctx locks).1
            × (ctx'.metadata ≡ ctx.metadata)
            × (ctx'.lock_acquired ≡ true)
            × (ctx'.lock_owner ≡ lock_owner_of session_id))
  unfolding enter entered
  enter_cases seen now ctx locks =
      let k = lock_key_of ctx.metadata.session_id in
      let owner = lock_owner_of ctx.metadata.session_id in
      elim (acquire_cases digest fallback k owner none seen now locks) [
        | inl denied ↦ inl (ap (entered digest fallback now ctx) denied)
        | inr (r, got, on_disk, owned) ↦
            let e =
              entered-some now ctx (acquire digest fallback k owner none seen now locks) r got in
            inr (
              held_context now ctx,
              ap (λ (p : Option SessionContext × Locks). p.0) e,
              subst (λ (p : Option SessionContext × Locks). IsHeld ctx.metadata.session_id p.1)
                  (sym e) (record { lock = r; on_disk = on_disk; owned = owned }),
              refl,
              refl,
              refl,
            )
      ]

  -- Whoever holds the lock of a session, another context of the session enters as well.
  enter-IsHeld :
      (seen now : ℕ) (ctx : SessionContext) (locks : Locks)
      → IsHeld ctx.metadata.session_id locks
      → (enter digest fallback seen now ctx locks).0 ≡ some (held_context now ctx)
  unfolding enter
  enter-IsHeld seen now ctx locks h =
      ap (λ (p : Option SessionContext × Locks). p.0)
        (entered-some now ctx _ _ (
          acquire_own digest fallback (lock_key_of ctx.metadata.session_id)
            (lock_owner_of ctx.metadata.session_id) none seen now locks h.lock h.on_disk h.owned))

  -- A context that is left gives the lock up, if it is the session's.
  pub exit-IsHeld :
      (now : ℕ) (normal : Bool) (ctx : SessionContext) (locks : Locks)
      → IsHeld ctx.metadata.session_id locks
      → ctx.lock_acquired ≡ true
      → ctx.lock_owner ≡ lock_owner_of ctx.metadata.session_id
      → read_lock_record digest
          (exit digest now normal ctx locks).1
          (lock_key_of ctx.metadata.session_id)
        ≡ none
  unfolding exit
  exit-IsHeld now normal ctx locks h a o =
      let k = lock_key_of ctx.metadata.session_id in
      rw a (rw o (release_own digest k _ locks h.lock h.on_disk h.owned))

  -- The lock does not keep two contexts of a session apart: while one is inside, another enters
  -- too, and when the first is left, the lock is gone although the second is still inside.
  pub enter_shared :
      (ctx other : SessionContext) (locks : Locks) (seen now seen' now' left : ℕ) (normal : Bool)
      → other.metadata.session_id ≡ ctx.metadata.session_id
      → let (first, locks') = enter digest fallback seen now ctx locks in
        first ≢ none
        → let (second, locks'') = enter digest fallback seen' now' other locks' in
          (second ≡ some (held_context now' other))
          × (read_lock_record digest
                (exit digest left normal (held_context now ctx) locks'').1
                (lock_key_of ctx.metadata.session_id)
              ≡ none)
  enter_shared ctx other locks seen now seen' now' left normal same first =
      elim (enter_cases seen now ctx locks) [
        | inl denied ↦ absurd (first (ap (λ (p : Option SessionContext × Locks). p.0) denied))
        | inr (_, _, held, _, _, _) ↦
            let locks' = (enter digest fallback seen now ctx locks).1 in
            let theirs : IsHeld other.metadata.session_id locks' =
              subst (λ k. IsHeld k locks') (sym same) held in
            let again = enter-IsHeld seen' now' other locks' theirs in
            (
              again,
              elim (enter_cases seen' now' other locks') [
                | inl denied ↦
                    absurd (cc (ap (λ (p : Option SessionContext × Locks). p.0) denied, again))
                | inr (_, _, held', _, _, _) ↦
                    exit-IsHeld left normal (held_context now ctx) _
                      (subst (λ k. IsHeld k (enter digest fallback seen' now' other locks').1) same
                        held')
                      refl refl
              ],
            )
      ]
