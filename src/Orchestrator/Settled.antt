-- ===== src/Orchestrator/Settled.antt =====
-- A turn ends in its session's log however the adapter's run ends.
use Prim.Native.String.{◌++◌ as ◌&◌}
use private_claw.Prelude.{String, ◌≡◌, Option, none, some}
use private_claw.Store.Interface.{SessionStore, Laws}
use private_claw.Agent.Messages.{Texts}
use private_claw.Orchestrator.Persistence.{
  TurnTerminalStatus, completed, cancelled, degraded, failed,
}
use private_claw.Orchestrator.Batch.{Ends}
use private_claw.Orchestrator.Memory.{Writer, apply_approved_memory_intents}
use private_claw.Orchestrator.Turn.{
  AdapterOutcome, replied, turn_cancelled, tool_call_failed, unexpected_model_behavior,
  model_http_error, other_exception, cancelled_error, unexpected_behavior, http_error, other_error,
  Result, returned, raised, TurnInput, recovered,
}

module _ {I : Type 0} where
  -- the status of the terminal record, none where the turn leaves none
  abbrev pub status_of : AdapterOutcome I → Option TurnTerminalStatus
  status_of (replied _ _ _ _) = some completed
  status_of (turn_cancelled _) = some cancelled
  status_of (tool_call_failed _ _) = some degraded
  status_of (unexpected_model_behavior _) = some failed
  status_of (model_http_error _) = some failed
  status_of other_exception = none

module _ {S I M : Type 0} (store : SessionStore S) {IsValid : S → Type 0}
    (laws : Laws store IsValid) (t : Texts) (writer : Option (Writer I M)) (input : TurnInput) where
  -- what the caller is given
  abbrev pub result_of : AdapterOutcome I → Result String
  result_of (replied response_text _ _ _) = returned response_text
  result_of (turn_cancelled _) = raised cancelled_error
  result_of (tool_call_failed recovered_text _) =
      returned (recovered store t writer input recovered_text)
  result_of (unexpected_model_behavior _) = raised unexpected_behavior
  result_of (model_http_error _) = raised http_error
  result_of other_exception = raised other_error

  -- the memory writer's state: only a reply's approved intents are applied
  abbrev pub memory_after : AdapterOutcome I → M → M
  memory_after (replied _ _ plans _) m = (apply_approved_memory_intents t.dumps writer plans m).1
  memory_after _ m = m

  -- from `old` to `new`: the turn's records, ended by one terminal record of the status, or nothing
  abbrev pub Settles : Option TurnTerminalStatus → S → S → Type 0
  Settles none old new = new ≡ old
  Settles (some status) old new =
      Ends store laws input.ids (store.read_session input.ids.session_id old) status new
