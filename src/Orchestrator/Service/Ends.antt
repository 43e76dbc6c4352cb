-- ===== src/Orchestrator/Service/Ends.antt =====
-- How execute_turn of src/assistant/core/orchestrator/service.py ends.
use private_claw.Prelude.{
  ℕ, String, ◌≡◌, ◌⊎◌, refl, Option, none, some, Bool, true, false, ap, sym, ◌∙◌, subst, inl, inr,
}
use private_claw.Store.Lock.{Locks, read_lock_record}
use private_claw.Store.Idempotency.{Ledger, IdempotencyRecord, check_and_register_ingress}
use private_claw.Store.Interface.{SessionStore}
use private_claw.Agent.Messages.{Texts}
use private_claw.Context.Metadata.{SessionMetadata}
use private_claw.Context.Sessions.{
  SessionContext, Resumed, resumed, session_not_found, resume_value_error, resume, enter, exit,
  lock_key_of, lock_owner_of, increment_turn_count,
}
use private_claw.Context.Sessions.SharedLock.{IsHeld, enter_cases, exit-IsHeld}
use private_claw.Orchestrator.Memory.{Writer}
use private_claw.Orchestrator.Turn.{
  session_not_found_error, lock_acquisition_error, other_error, Result, returned, raised,
}
use private_claw.Orchestrator.Service.{
  OrchestratorEvent, Settings, Run, World, run_turn, leave, inside, with_context, after_register,
  execute_turn,
}

module _ {S I M : Type 0} (store : SessionStore S) (t : Texts) (writer : Option (Writer I M))
    (settings : Settings) where
  -- what the ledger says of the event of a call
  abbrev pub registration :
      OrchestratorEvent → Run I → World S M → (Bool × Option IdempotencyRecord) × Ledger
  registration event run w =
      check_and_register_ingress settings.digest settings.service_ttl settings.ledger_ttl
        event.source event.event_id (some settings.idempotency_retention_seconds) (run.clock 0)
        (run.clock 1) w.ledger

  abbrev pub resumption : OrchestratorEvent → Run I → World S M → Resumed
  resumption event run w =
      resume settings.digest t.is_space event.session_id (run.clock 2) w.registry

  -- Why no turn runs: the event is a duplicate, or it is new and its session is not found, or has an
  -- unknown status, or is resumed and its lock cannot be acquired.
  pub data Cause (event : OrchestratorEvent) (run : Run I) (w : World S M)
      : Result (Option String) → Type 0 where
    duplicate : (registration event run w).0.0 ≡ true → Cause event run w (returned none)
    not_found :
        (registration event run w).0.0 ≡ false
        → resumption event run w ≡ session_not_found
        → Cause event run w (raised session_not_found_error)
    bad_status :
        (registration event run w).0.0 ≡ false
        → resumption event run w ≡ resume_value_error
        → Cause event run w (raised other_error)
    lock_taken :
        (registration event run w).0.0 ≡ false
        → (ctx : SessionContext) → resumption event run w ≡ resumed ctx
        → (enter settings.digest settings.lock_ttl (run.clock 3) (run.clock 4) ctx w.locks).0 ≡ none
        → Cause event run w (raised lock_acquisition_error)

  -- nothing but the ledger changed, and there is a cause for it
  pub record IsUntouched (event : OrchestratorEvent) (run : Run I) (w : World S M)
      (p : Result (Option String) × World S M) : Type 0 where
    pub sessions : p.1.sessions ≡ w.sessions
    pub memory : p.1.memory ≡ w.memory
    pub locks : p.1.locks ≡ w.locks
    pub registry : p.1.registry ≡ w.registry
    pub why : Cause event run w p.0

  abbrev some_reply : Result String → Result (Option String)
  some_reply (returned reply) = returned (some reply)
  some_reply (raised fault) = raised fault

  -- the turn ran on the world's sessions, and the session's lock is given up
  pub record HasRun (event : OrchestratorEvent) (run : Run I) (w : World S M)
      (p : Result (Option String) × World S M) : Type 0 where
    pub turn_result :
        p.0 ≡ some_reply (run_turn store t writer settings event run (w.sessions, w.memory)).0
    pub turn_state :
        (p.1.sessions, p.1.memory)
        ≡ (run_turn store t writer settings event run (w.sessions, w.memory)).1
    pub was_new : (registration event run w).0.0 ≡ false
    pub context : SessionContext
    pub was_resumed : resumption event run w ≡ resumed context
    pub released :
        read_lock_record settings.digest p.1.locks (lock_key_of context.metadata.session_id) ≡ none

  abbrev pub Ends :
      OrchestratorEvent → Run I → World S M → Result (Option String) × World S M → Type 0
  Ends event run w p = IsUntouched event run w p ⊎ HasRun event run w p

  left_free :
      (now : ℕ) (normal : Bool) (ctx ctx' : SessionContext) (locks : Locks)
      → IsHeld settings.digest settings.lock_ttl ctx.metadata.session_id locks
      → ctx'.metadata ≡ ctx.metadata
      → ctx'.lock_acquired ≡ true
      → ctx'.lock_owner ≡ lock_owner_of ctx.metadata.session_id
      → read_lock_record settings.digest
          (exit settings.digest now normal ctx' locks).1
          (lock_key_of ctx.metadata.session_id)
        ≡ none
  left_free now normal ctx ctx' locks held meta acquired owner =
      subst
        (λ (m : SessionMetadata).
          read_lock_record settings.digest (exit settings.digest now normal ctx' locks).1
            (lock_key_of m.session_id)
          ≡ none)
        meta
        (exit-IsHeld settings.digest settings.lock_ttl now normal ctx' locks
          (subst
            (λ (m : SessionMetadata). IsHeld settings.digest settings.lock_ttl m.session_id locks)
            (sym meta) held)
          acquired (owner ∙ ap (λ (m : SessionMetadata). lock_owner_of m.session_id) (sym meta)))

  -- what `leave` makes of a turn that has ended as `p`
  leave-released :
      (event : OrchestratorEvent) (run : Run I) (ctx ctx' : SessionContext) (w w' : World S M)
      (p : Result String × (S × M))
      → p ≡ run_turn store t writer settings event run (w.sessions, w.memory)
      → (registration event run w).0.0 ≡ false
      → resume settings.digest t.is_space event.session_id (run.clock 2) w.registry ≡ resumed ctx
      → IsHeld settings.digest settings.lock_ttl ctx.metadata.session_id w'.locks
      → ctx'.metadata ≡ ctx.metadata
      → ctx'.lock_acquired ≡ true
      → ctx'.lock_owner ≡ lock_owner_of ctx.metadata.session_id
      → HasRun event run w (leave store t writer settings run ctx' p w')
  unfolding leave increment_turn_count
  leave-released event run ctx ctx' w w' (returned reply, (s, m)) e new found held meta acquired
        owner =
      record {
        turn_result = ap (λ (q : Result String × (S × M)). some_reply q.0) e;
        turn_state = ap (λ (q : Result String × (S × M)). q.1) e;
        was_new = new;
        context = ctx;
        was_resumed = found;
        released =
            left_free (run.clock 7) true ctx (increment_turn_count (run.clock 6) ctx') w'.locks held
              meta acquired owner;
      }
  leave-released event run ctx ctx' w w' (raised fault, (s, m)) e new found held meta acquired
        owner =
      record {
        turn_result = ap (λ (q : Result String × (S × M)). some_reply q.0) e;
        turn_state = ap (λ (q : Result String × (S × M)). q.1) e;
        was_new = new;
        context = ctx;
        was_resumed = found;
        released = left_free (run.clock 7) false ctx ctx' w'.locks held meta acquired owner;
      }

  inside-Ends :
      (event : OrchestratorEvent) (run : Run I) (ctx : SessionContext) (w : World S M)
      (ledger : Ledger)
      → (registration event run w).0.0 ≡ false
      → resume settings.digest t.is_space event.session_id (run.clock 2) w.registry ≡ resumed ctx
      → Ends event run w (
          inside store t writer settings event run
            (enter settings.digest settings.lock_ttl (run.clock 3) (run.clock 4) ctx w.locks)
            (record w { ledger = ledger }))
  unfolding inside
  inside-Ends event run ctx w ledger new found =
      elim (enter_cases settings.digest settings.lock_ttl (run.clock 3) (run.clock 4) ctx w.locks) [
        | inl denied ↦
            subst
              (λ p.
                Ends event run w
                  (inside store t writer settings event run p (record w { ledger = ledger })))
              (sym denied)
              (inl (record {
                sessions = refl;
                memory = refl;
                locks = refl;
                registry = refl;
                why =
                    lock_taken new ctx found
                      (ap (λ (o : Option SessionContext × Locks). o.0) denied);
              }))
        | inr (ctx', entered, held, meta, acquired, owner) ↦
            subst
              (λ (o : Option SessionContext). Ends event run w (
                inside store t writer settings event run
                  (
                    o,
                    (enter settings.digest settings.lock_ttl (run.clock 3) (run.clock 4) ctx
                        w.locks).1,
                  )
                  (record w { ledger = ledger })))
              (sym entered)
              (inr
                (leave-released event run ctx ctx' w _ _ refl new found held meta acquired owner))
      ]

  resumed-Ends :
      (event : OrchestratorEvent) (run : Run I) (w : World S M) (ledger : Ledger) (x : Resumed)
      → (registration event run w).0.0 ≡ false
      → resume settings.digest t.is_space event.session_id (run.clock 2) w.registry ≡ x
      → Ends event run w
          (with_context store t writer settings event run x (record w { ledger = ledger }))
  unfolding with_context
  resumed-Ends event run w ledger session_not_found new found = inl (record {
    sessions = refl;
    memory = refl;
    locks = refl;
    registry = refl;
    why = not_found new found;
  })
  resumed-Ends event run w ledger resume_value_error new found = inl (record {
    sessions = refl;
    memory = refl;
    locks = refl;
    registry = refl;
    why = bad_status new found;
  })
  resumed-Ends event run w ledger (resumed ctx) new found =
      inside-Ends event run ctx w ledger new found

  after_register-Ends :
      (event : OrchestratorEvent) (run : Run I) (w : World S M)
      (p : (Bool × Option IdempotencyRecord) × Ledger)
      → registration event run w ≡ p
      → Ends event run w (after_register store t writer settings event run p w)
  unfolding after_register
  after_register-Ends event run w ((true, _), ledger) e = inl (record {
    sessions = refl;
    memory = refl;
    locks = refl;
    registry = refl;
    why = duplicate (ap (λ (q : (Bool × Option IdempotencyRecord) × Ledger). q.0.0) e);
  })
  after_register-Ends event run w ((false, _), ledger) e =
      resumed-Ends event run w ledger _
        (ap (λ (q : (Bool × Option IdempotencyRecord) × Ledger). q.0.0) e) refl

  -- However a call of `execute_turn` goes, one of two things happens. Either no turn runs and nothing
  -- but the idempotency ledger changes, for a cause: the ledger has the event, and the call returns
  -- none; or it has not, and the call raises because the session is not found, its file has an
  -- unknown status, or it is resumed and its lock cannot be acquired. Or the event is new and its
  -- session was resumed, the turn ran once on the sessions and the memory as they were, the caller
  -- gets what it returned or raised, and the lock of the session is given up.
  pub execute_turn_lem :
      (event : OrchestratorEvent) (run : Run I) (w : World S M)
      → Ends event run w (execute_turn store t writer settings event run w)
  unfolding execute_turn
  execute_turn_lem event run w = after_register-Ends event run w _ refl
