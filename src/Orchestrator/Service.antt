-- ===== src/Orchestrator/Service.antt =====
-- The life of a turn: Orchestrator.execute_turn, _run_turn and compact_session of
-- src/assistant/core/orchestrator/service.py.
pub mod Ends
pub mod Once
use Prim.Native.String.{◌++◌ as ◌&◌}
use private_claw.Prelude.{
  ℕ, String, Option, none, some, Bool, true, false, List, [], ◌∷◌, filter, contains, not, ◌&&◌,
  ◌||◌, ◌==◌, string_eq, if◌then◌else◌, get_last?,
}
use private_claw.Prelude.Texts.{starts_with}
use private_claw.Store.Records.{SessionRecord, Json, text, get}
use private_claw.Store.Lock.{Locks}
use private_claw.Store.Idempotency.{Ledger, IdempotencyRecord, check_and_register_ingress}
use private_claw.Store.Interface.{SessionStore, replay_for_turn}
use private_claw.Store.Replay.{is_call}
use private_claw.Store.Recovery.{distinct, sorted_texts}
use private_claw.Agent.Messages.{Texts}
use private_claw.Context.Sessions.{
  SessionContext, Registry, Resumed, resumed, session_not_found, resume_value_error, resume, enter,
  exit, increment_turn_count, persist_state,
}
use private_claw.Orchestrator.Memory.{Writer}
use private_claw.Orchestrator.Compaction.{
  CompactionConfig, NewSummary, compact_session, should_compact_session,
}
use private_claw.Orchestrator.Turn.{
  AdapterOutcome, session_not_found_error, lock_acquisition_error, other_error, Result, returned,
  raised, TurnInput, choose_model, end_turn,
}

-- OrchestratorEvent, as far as a turn reads it: the content is the text that `_run_turn` makes of
-- the event's text and attachments, the attachments are the list's JSON text.
pub record OrchestratorEvent : Type 0 where
  pub source : String
  pub event_id : String
  pub session_id : String
  pub user_id : Option String
  pub model_id_override : Option String
  pub user_content : String
  pub attachments : String

-- What the orchestrator is configured with; `current_tools` is collect_enabled_tool_ids of the
-- configuration, `prompt_trace` the trace's JSON text where one is asked for.
pub record Settings : Type 0 where
  pub digest : String → String
  pub lock_ttl : ℕ
  pub service_ttl : ℕ
  pub ledger_ttl : ℕ
  pub idempotency_retention_seconds : ℕ
  pub compaction : CompactionConfig
  pub input_tokens : Json → Option ℕ
  pub default_model_id : String
  pub model_allowlist : List String
  pub prompt_trace : Option String
  pub current_tools : List String

-- What a call meets: the readings of the clock, in their order, how the adapter's run ends on a
-- history, what the summariser makes of records, and the names of a new summary.
pub record Run (I : Type 0) : Type 0 where
  pub clock : ℕ → ℕ
  pub adapter : List SessionRecord → AdapterOutcome I
  pub summarize : List SessionRecord → Option String
  pub new_summary : NewSummary

pub record World (S M : Type 0) : Type 0 where
  pub sessions : S
  pub memory : M
  pub locks : Locks
  pub ledger : Ledger
  pub registry : Registry

abbrev text_of : Json → String
text_of (text s) = s
text_of _ = ""

abbrev is_checked_tool : String → Bool
is_checked_tool tool_name =
    not (tool_name == "")
    && not (
        starts_with "mcp_" tool_name
        || starts_with "cap_mcp_" tool_name
        || starts_with "cap.mcp." tool_name)

-- the tools that the calls of a turn name, without those of MCP servers
unfoldable pub historical_tools : String → List SessionRecord → List String
historical_tools last_turn_id [] = []
historical_tools last_turn_id (r ∷ rs) =
    let rest = historical_tools last_turn_id rs in
    let tool_name = text_of (get "tool_name" r.payload) in
    if is_call r.record_type && r.turn_id == last_turn_id && is_checked_tool tool_name
    then tool_name ∷ rest
    else rest

unfoldable pub quoted_list : List String → String
quoted_list [] = ""
quoted_list (s ∷ []) = "`" & s & "`"
quoted_list (s ∷ t ∷ ss) = "`" & s & "`, " & quoted_list (t ∷ ss)

abbrev mismatch_message : List String → Option String
mismatch_message [] = none
mismatch_message (s ∷ ss) = some (
    "⚠\u{fe0f} Your session history references tools that are not currently active: "
    & quoted_list (s ∷ ss)
    & ". Please re-enable the required capability before continuing.")

abbrev missing_of : List String → List SessionRecord → Option SessionRecord → List String
missing_of current_tools records none = []
missing_of current_tools records (some last) =
    filter (λ tool. not (contains current_tools tool))
      (distinct (historical_tools last.turn_id records))

unfoldable pub detect_tool_mismatch : List String → List SessionRecord → Option String
unfolding historical_tools quoted_list
detect_tool_mismatch current_tools records =
    mismatch_message (sorted_texts (missing_of current_tools records (get_last? records)))

module _ {S I M : Type 0} (store : SessionStore S) (t : Texts) (writer : Option (Writer I M))
    (settings : Settings) where
  unfoldable pub turn_input : OrchestratorEvent → ℕ → TurnInput
  turn_input event now = record {
    ids = record { session_id = event.session_id; turn_id = event.event_id; now = now };
    user_content = event.user_content;
    attachments = event.attachments;
    user_id = event.user_id;
    model_id =
        choose_model settings.model_allowlist settings.default_model_id event.model_id_override;
    default_model_id = settings.default_model_id;
    prompt_trace = settings.prompt_trace;
  }

  -- the compaction before a turn
  unfoldable pub compact_if_needed : Run I → String → S → S
  compact_if_needed run session_id s =
      let records = store.read_session session_id s in
      if should_compact_session settings.input_tokens settings.compaction records
      then (compact_session t.digits settings.compaction store run.summarize true session_id
          run.new_summary records s).1
      else s

  abbrev after_check :
      OrchestratorEvent
      → Run I
      → List SessionRecord
      → Option String
      → S × M
      → Result String × (S × M)
  after_check event run records (some message) w = (returned message, w)
  after_check event run records none w =
      end_turn store t writer (turn_input event (run.clock 5)) (run.adapter records) w

  -- `_run_turn`; the history is replayed on a budget of 50 records
  unfoldable pub run_turn : OrchestratorEvent → Run I → S × M → Result String × (S × M)
  unfolding compact_if_needed turn_input detect_tool_mismatch
  run_turn event run (s, m) =
      let s' = compact_if_needed run event.session_id s in
      let records = replay_for_turn store event.session_id 50 s' in
      after_check event run records (detect_tool_mismatch settings.current_tools records) (s', m)

  -- the end of the `async with` block, with the turn count and the state saved after a reply
  unfoldable pub leave :
      Run I
      → SessionContext
      → Result String × (S × M)
      → World S M
      → Result (Option String) × World S M
  leave run ctx (returned reply, (s, m)) w =
      let ctx' = increment_turn_count (run.clock 6) ctx in
      let (_, registry) = persist_state settings.digest t.is_space ctx' w.registry in
      (
        returned (some reply),
        record w {
          sessions = s;
          memory = m;
          registry = registry;
          locks = (exit settings.digest (run.clock 7) true ctx' w.locks).1;
        },
      )
  leave run ctx (raised fault, (s, m)) w = (
    raised fault,
    record w {
      sessions = s;
      memory = m;
      locks = (exit settings.digest (run.clock 7) false ctx w.locks).1;
    },
  )

  unfoldable pub inside :
      OrchestratorEvent
      → Run I
      → Option SessionContext × Locks
      → World S M
      → Result (Option String) × World S M
  unfolding leave run_turn
  inside event run (none, locks) w = (raised lock_acquisition_error, record w { locks = locks })
  inside event run (some ctx, locks) w =
      leave run ctx (run_turn event run (w.sessions, w.memory)) (record w { locks = locks })

  unfoldable pub with_context :
      OrchestratorEvent → Run I → Resumed → World S M → Result (Option String) × World S M
  unfolding inside
  with_context event run session_not_found w = (raised session_not_found_error, w)
  with_context event run resume_value_error w = (raised other_error, w)
  with_context event run (resumed ctx) w =
      inside event run
        (enter settings.digest settings.lock_ttl (run.clock 3) (run.clock 4) ctx w.locks) w

  unfoldable pub after_register :
      OrchestratorEvent
      → Run I
      → (Bool × Option IdempotencyRecord) × Ledger
      → World S M
      → Result (Option String) × World S M
  unfolding with_context
  after_register event run ((true, _), ledger) w = (returned none, record w { ledger = ledger })
  after_register event run ((false, _), ledger) w =
      with_context event run
        (resume settings.digest t.is_space event.session_id (run.clock 2) w.registry)
        (record w { ledger = ledger })

  -- none for a duplicate
  unfoldable pub execute_turn :
      OrchestratorEvent → Run I → World S M → Result (Option String) × World S M
  unfolding after_register
  execute_turn event run w =
      after_register event run
        (check_and_register_ingress settings.digest settings.service_ttl settings.ledger_ttl
          event.source event.event_id (some settings.idempotency_retention_seconds) (run.clock 0)
          (run.clock 1) w.ledger)
        w
