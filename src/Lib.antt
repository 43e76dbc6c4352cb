-- ===== src/Lib.antt =====
-- A verification library for the assistant in this repository: a Telegram assistant whose model
-- runs turns of sessions, delegates long work to sub-agents, and keeps all of its state in files
-- under one runtime directory.
--
-- How the parts interact: an update from Telegram passes the throttle guard
-- (src/assistant/channels/telegram/reliability/throttle.py) and the idempotency ledger, which
-- accepts an event once. A turn of a session runs under that session's lock; its records are
-- appended to the session's log, and the next turn is given a replay of that log. The model's
-- delegation tool makes a task in the task store; the coordinator's worker loop runs it on a
-- backend and records its end. A response goes out through the egress with retries. At startup
-- the recovery scan repairs what a crash left in the logs, the tasks and the ledger.
--
-- Paths below are from the repository's root. The model's state is the content of the
-- directories: a dictionary from file names to documents (Store.Files), where a document is the
-- record that a file decodes to, or malformed. An operation that the code runs under an asyncio
-- lock is one step on that state. Every reading of the clock is an argument, in microseconds (in
-- ticks for the throttle guard).
--
-- - Prelude: Boolean tests, equality of decided types, lists measured by native numbers, and
--   dictionaries as association lists in insertion order with their laws.
-- - Store.Files: what a reader makes of a file of one document
--   (src/assistant/store/filesystem/atomic.py replaces files as a whole), and lifetimes in
--   seconds.
-- - Store.Records: SessionRecord and its payload, of src/assistant/store/models.py. A payload is
--   a dictionary of JSON scalars; an array or object inside it stands as its text, and numbers are
--   natural.
-- - Store.Session: FilesystemSessionStore of src/assistant/store/filesystem/session.py, over
--   file_append_lines of atomic.py. A session file is a list of lines, each a record, malformed,
--   torn, or a record that lacks its newline. Log has the invariant of a file, Firsts the records
--   of a batch that a log takes in, Append and Contract what append does, Crash what a crash does.
-- - Store.Lock: FilesystemLockCoordinator of src/assistant/store/filesystem/lock.py (acquire,
--   release, refresh, is_locked, get_lock_info). Lease is about interleavings of calls, Branches
--   about each operation. Maintenance has the operations of src/assistant/store/runtime/manager.py
--   on locks, Sweep what they mean to the holders.
-- - Store.Idempotency: FilesystemIdempotencyLedger of
--   src/assistant/store/filesystem/idempotency.py and IngressIdempotencyService of
--   src/assistant/store/idempotency/service.py.
-- - Store.Replay: build_replay of src/assistant/store/filesystem/replay.py and its helpers.
-- - Store.Task: FilesystemTaskStore of src/assistant/store/filesystem/task.py. Status is about
--   update_status and heartbeat, Cleanup about cleanup_expired, Timed about every sequence of
--   calls (Reachable).
-- - Store.Recovery: run_recovery_scan of StoreFacade in src/assistant/store/facade.py. The
--   definitions are in Recovery (the repairs) and Recovery.Scan (the scans); Settled, Marker and
--   Torn have its theorems.
-- - Subagents: DelegationCoordinator of src/assistant/subagents/coordinator.py. Params reads
--   requests and the tool's parameters, Limits has the concurrency limit and the token budgets,
--   Enqueue is enqueue_from_tool (Admission says what an accepted request has passed), Execute is
--   _execute_task, Cancel is cancel_task, get_task and _recover_inflight_tasks, Worker is one
--   round of _worker_loop. What other coroutines do while one awaits is an argument, and so is the
--   await of _execute_task, if any, at which it is cancelled.
-- - Capabilities: src/assistant/core/capabilities/loader.py. Expand is
--   expand_nested_capabilities, Collect the collectors and apply_claude_code_settings. The
--   recursion of _expand goes down on fuel of one more than there are definitions: each level but
--   the last meets a definition that no level above it met.
-- - Telegram.Throttle: ChannelThrottleGuard of
--   src/assistant/channels/telegram/reliability/throttle.py.
-- - Telegram.Egress: TelegramEgress.send of src/assistant/channels/telegram/egress.py. The loop
--   over attempts is recursion on the attempts that are left, which starts at max_attempts. A
--   message counts as sent when a call of the Bot API confirms it: one that was delivered although
--   its call raised a network error is not visible to the code, nor here.
-- - Telegram.SplitText: _split_text of the same file, whose limit is 4096 characters in the code
--   and any positive number here. Its loop goes down on fuel, the length of the text: each round
--   takes at least one character.
-- - Store.Interface: the operations of SessionStoreInterface in
--   src/assistant/store/interfaces.py that the orchestrator calls, as a record with its laws;
--   session_exists, list_sessions and clear_session are not among them. Store.Session.Implements
--   fills it with FilesystemSessionStore.
-- - Agent: the messages of a run of pydantic-ai and _new_messages_to_session_records of
--   src/assistant/agent/session_record_builder.py, which writes them as records.
-- - Orchestrator: Orchestrator of src/assistant/core/orchestrator/service.py. Persistence is
--   persistence.py (the records of a turn), Memory is memory.py (the plans of memory writes and
--   their outcomes), Turn is what _run_turn_pydantic_ai does from the end of the adapter's run on,
--   Compaction is _compact_session with token_usage.py, Service is execute_turn and _run_turn.
--   Batch and Members are about the lists of records that a turn appends, Settled about how a turn
--   ends, Layout, Compacted and Pass about what a compaction leaves, Ends and Once about
--   execute_turn.
-- - Context: Overrides is ActiveSessionContextService and SessionModelContextService of
--   src/assistant/core/session_context (one map from contexts to texts, kept in one file, or in
--   memory alone when there is no path or the path cannot be written), Metadata is
--   FilesystemSessionMetadataStore of src/assistant/store/filesystem/metadata.py with
--   src/assistant/core/session/metadata.py, Sessions is SessionContext and SessionContextFactory
--   of src/assistant/core/session. SharedLock is about two contexts of one session.
-- - Memory: the models and paths of src/assistant/memory/store. Dedup is
--   src/assistant/memory/write/dedup.py, Write is MemoryWriteService of
--   src/assistant/memory/write/service.py with intent_audit.py, Indexes is MemoryIndexer of
--   src/assistant/memory/indexing/indexer.py. Lookups, Postings and Recency have the lemmas on one
--   index, Rebuilt what an update of the indexes amounts to.
--
-- A turn, through these parts: execute_turn registers the event in the ledger, resumes the
-- session from its metadata, and enters its context, which acquires the lock of the session.
-- Inside it, _run_turn may compact the log, replays it for the model, and compares the tools of
-- the log with those at hand. The adapter then runs the model (a parameter, whose value is how
-- the run ends), and the records of the turn are appended to the session store in one, two or
-- three calls. Leaving the context writes the metadata and releases the lock.
--
-- Parameters, for code or tables that are not in the repository or not modelled here: the
-- SHA-256 digest of a name, str.isalnum and str.isspace of one character, int and str.lower of a
-- text, json.loads and json.dumps, the printed form of a number or a clock, how a backend's run
-- ends, how a call of the Bot API ends, how the adapter's run ends, the text of a summary, the
-- writer of memory, the tools of an adapter, and uuid4.
--
-- Not modelled: the text of JSON files, fsync and os.replace beyond their atomicity, logging and
-- audit output, and the components that no module above names, among them the retrieval of
-- memory and its file format, the capability override of a context, the confirmation of memory
-- updates, the texts of a message for the model (src/assistant/core/orchestrator/payloads.py),
-- the Telegram adapter and its callbacks, the run of the agent and its tools, extensions,
-- configuration, the HTTP API, the admin pages and the mini apps. Session ids that differ in
-- characters other than letters, digits, - and _ share a file name of the session store in the
-- code, and so they do here.
pub mod Agent
pub mod Capabilities
pub mod Context
pub mod Memory
pub mod Orchestrator
pub mod Prelude
pub mod Store
pub mod Subagents
pub mod Telegram
