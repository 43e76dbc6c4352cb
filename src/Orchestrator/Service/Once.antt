-- ===== src/Orchestrator/Service/Once.antt =====
-- A second call of execute_turn of src/assistant/core/orchestrator/service.py for the same event.
use private_claw.Prelude.{
  ℕ, String, string_eq, arith, ◌≡◌, refl, Option, none, some, Bool, true, false, [], ap, ◌∙◌, ◌<◌,
}
use private_claw.Prelude.Dict.{NodupKeys}
use private_claw.Store.Files.{after_seconds}
use private_claw.Store.Lock.{Locks}
use private_claw.Store.Idempotency.{
  Ledger, IdempotencyRecord, build_key, check, check_and_register_ingress,
}
use private_claw.Store.Idempotency.Once.{accepted_once, run}
use private_claw.Store.Interface.{SessionStore}
use private_claw.Agent.Messages.{Texts}
use private_claw.Context.Sessions.{
  SessionContext, Resumed, resumed, session_not_found, resume_value_error,
}
use private_claw.Orchestrator.Memory.{Writer}
use private_claw.Orchestrator.Turn.{Result, returned, raised}
use private_claw.Orchestrator.Service.{
  OrchestratorEvent, Settings, Run, World, leave, inside, with_context, after_register,
  execute_turn,
}

module _ {S I M : Type 0} (store : SessionStore S) (t : Texts) (writer : Option (Writer I M))
    (settings : Settings) (event : OrchestratorEvent) where
  -- registering the event of a call at a moment, with the ledger as it is
  abbrev pub registering : (seen now : ℕ) → Ledger → (Bool × Option IdempotencyRecord) × Ledger
  registering =
      check_and_register_ingress settings.digest settings.service_ttl settings.ledger_ttl
        event.source event.event_id (some settings.idempotency_retention_seconds)

  registering_again :
      (seen now : ℕ) (ledger : Ledger) (r : IdempotencyRecord)
      → check settings.digest (build_key event.source event.event_id) seen ledger ≡ some r
      → registering seen now ledger ≡ ((true, some r), ledger)
  unfolding check_and_register_ingress
  registering_again seen now ledger r h = ground (arith, h)

  -- only the registration writes the ledger
  leave-ledger :
      (later : Run I) (ctx : SessionContext) (p : Result String × (S × M)) (w : World S M)
      → (leave store t writer settings later ctx p w).1.ledger ≡ w.ledger
  unfolding leave
  leave-ledger later ctx (returned reply, _) w = refl
  leave-ledger later ctx (raised fault, _) w = refl

  inside-ledger :
      (later : Run I) (p : Option SessionContext × Locks) (w : World S M)
      → (inside store t writer settings event later p w).1.ledger ≡ w.ledger
  unfolding inside
  inside-ledger later (none, locks) w = refl
  inside-ledger later (some ctx, locks) w = leave-ledger later ctx _ (record w { locks = locks })

  with_context-ledger :
      (first : Run I) (x : Resumed) (w : World S M)
      → (with_context store t writer settings event first x w).1.ledger ≡ w.ledger
  unfolding with_context
  with_context-ledger first session_not_found w = refl
  with_context-ledger first resume_value_error w = refl
  with_context-ledger first (resumed ctx) w = inside-ledger first _ w

  after_register-ledger :
      (first : Run I) (p : (Bool × Option IdempotencyRecord) × Ledger) (w : World S M)
      → (after_register store t writer settings event first p w).1.ledger ≡ p.1
  unfolding after_register
  after_register-ledger first ((true, _), ledger) w = refl
  after_register-ledger first ((false, _), ledger) w =
      with_context-ledger first _ (record w { ledger = ledger })

  -- Once a call has registered its event, a later call for the event that begins before the
  -- retention time is over returns none and changes nothing, however the first call ended: with a
  -- reply, with an exception of the turn, or without a turn because the session was not found or its
  -- lock was another's.
  pub execute_turn_once :
      (first later : Run I) (w : World S M)
      → NodupKeys w.ledger
      → (registering (first.clock 0) (first.clock 1) w.ledger).0 ≡ (false, none)
      → later.clock 0 < after_seconds (first.clock 1) settings.idempotency_retention_seconds
      → let w' = (execute_turn store t writer settings event first w).1 in
        execute_turn store t writer settings event later w' ≡ (returned none, w')
  unfolding execute_turn after_register run
  execute_turn_once first later w u new before =
      let w' = (execute_turn store t writer settings event first w).1 in
      let (_, finds) =
        accepted_once settings.digest settings.service_ttl settings.ledger_ttl event.source
          event.event_id (some settings.idempotency_retention_seconds) (first.clock 0)
          (first.clock 1) w.ledger [] u new tt in
      let ledger =
        after_register-ledger first (registering (first.clock 0) (first.clock 1) w.ledger) w in
      let again = registering_again (later.clock 0) (later.clock 1) w'.ledger _ (
        ap (check settings.digest (build_key event.source event.event_id) (later.clock 0)) ledger
        ∙ finds (later.clock 0) before) in
      ap (λ p. after_register store t writer settings event later p w') again
