-- ===== src/Context/Sessions.antt =====
-- SessionContext of src/assistant/core/session/context.py, and SessionContextFactory of
-- src/assistant/core/session/factory.py. Every `datetime.now` is an argument.
pub mod SharedLock
use Prim.Native.Char.{Char, code}
use Prim.Native.String.{◌++◌ as ◌&◌}
use private_claw.Prelude.{
  ℕ, ◌+◌, String, Option, none, some, Bool, true, false, ◌==◌, nat_eq, string_eq, if◌then◌else◌,
}
use private_claw.Store.Lock.{LockRecord, Locks, acquire, release}
use private_claw.Context.Overrides.{Service, get_active_session, set_override, clear_active_session}
use private_claw.Context.Metadata.{
  SessionStatus, active, suspended, archived, SessionType, long_running, SessionMetadata,
  SessionState, MetadataDir, Loaded, absent, found, load_value_error, save, load, update_state,
}

pub record SessionContext : Type 0 where
  pub metadata : SessionMetadata
  pub state : SessionState
  pub lock_acquired : Bool
  pub lock_owner : String

-- a context that has not been entered
abbrev pub new_context : SessionMetadata → SessionState → SessionContext
new_context metadata state = record {
  metadata = metadata;
  state = state;
  lock_acquired = false;
  lock_owner = "";
}

abbrev pub lock_key_of : String → String
lock_key_of session_id = "session:" & session_id

abbrev pub lock_owner_of : String → String
lock_owner_of session_id = "session_context:" & session_id

abbrev with_status : SessionStatus → ℕ → SessionState → SessionState
with_status status now state = record state { status = status; last_activity_at = now }

unfoldable pub increment_turn_count : ℕ → SessionContext → SessionContext
increment_turn_count now ctx =
    let state = ctx.state in
    record ctx {
      state = record state { turn_count = state.turn_count + 1; last_activity_at = now };
    }

unfoldable pub suspend : ℕ → SessionContext → SessionContext
suspend now ctx = record ctx { state = with_status suspended now ctx.state }

unfoldable pub archive : ℕ → SessionContext → SessionContext
archive now ctx = record ctx { state = with_status archived now ctx.state }

unfoldable pub activate : ℕ → SessionContext → SessionContext
activate now ctx = record ctx { state = with_status active now ctx.state }

abbrev status_after : Bool → SessionType → SessionStatus → SessionStatus
status_after true long_running _ = suspended
status_after _ _ status = status

-- `context_id.replace(":", "_")`
unfoldable pub replace_colons : String → String
replace_colons String.[] = String.[]
replace_colons (String.◌∷◌ c s) = String.◌∷◌ (if code c == b':' then "_" else c) (replace_colons s)

-- `digest` is the first 32 hexadecimal digits of the SHA-256 of a text, `fallback` the lock's
-- default time to live.
module _ (digest : String → String) where
  module _ (fallback : ℕ) where
    unfoldable pub entered :
        ℕ → SessionContext → Option LockRecord × Locks → Option SessionContext × Locks
    entered now ctx (none, locks) = (none, locks)
    entered now ctx (some _, locks) = (
      some (record {
        metadata = ctx.metadata;
        state = with_status active now ctx.state;
        lock_acquired = true;
        lock_owner = lock_owner_of ctx.metadata.session_id;
      }),
      locks,
    )

    -- `_enter`: none for LockAcquisitionError
    unfoldable pub enter : (seen now : ℕ) → SessionContext → Locks → Option SessionContext × Locks
    unfolding entered
    enter seen now ctx locks =
        let session_id = ctx.metadata.session_id in
        entered now ctx (
          acquire digest fallback (lock_key_of session_id) (lock_owner_of session_id) none seen now
            locks)

  -- `_exit`, after a normal end or an exception
  unfoldable pub exit : ℕ → Bool → SessionContext → Locks → SessionContext × Locks
  exit now normal ctx locks =
      let session_type = ctx.metadata.session_type in
      let state = ctx.state in
      (
        record ctx {
          lock_acquired = false;
          state = with_status (status_after normal session_type state.status) now state;
        },
        (if ctx.lock_acquired
            then (release digest (lock_key_of ctx.metadata.session_id) ctx.lock_owner locks).1
            else locks),
      )

abbrev reactivated : ℕ → SessionStatus → SessionState → SessionState
reactivated now suspended state = with_status active now state
reactivated now _ state = state

-- a resumed context, SessionNotFoundError, or the ValueError of a file with an unknown status
pub data Resumed : Type 0 where
  resumed : SessionContext → Resumed
  session_not_found : Resumed
  resume_value_error : Resumed

abbrev resumed_as : ℕ → Loaded → Resumed
resumed_as now absent = session_not_found
resumed_as now load_value_error = resume_value_error
resumed_as now (found metadata state) =
    resumed (new_context metadata (reactivated now state.status state))

-- the files of metadata and the active sessions
pub record Registry : Type 0 where
  pub files : MetadataDir
  pub routes : Service

-- `hex` is `uuid.uuid4().hex[:12]` of the call.
module _ (digest : String → String) (is_space : Char → Bool) where
  unfoldable pub resume : String → ℕ → Registry → Resumed
  resume session_id now r = resumed_as now (load digest session_id r.files)

  unfoldable pub generate_session_id : String → String → String
  unfolding replace_colons
  generate_session_id context_id hex = replace_colons context_id & ":" & hex

  -- `session_id or self._generate_session_id(context_id)`
  abbrev chosen_id : Option String → String → String → String
  unfolding generate_session_id
  chosen_id none context_id hex = generate_session_id context_id hex
  chosen_id (some session_id) context_id hex =
      if session_id == "" then generate_session_id context_id hex else session_id

  unfoldable pub create :
      String
      → SessionType
      → Option String
      → (hex : String) (now : ℕ) → Registry
      → SessionContext × Registry
  unfolding generate_session_id
  create context_id session_type session_id hex now r =
      let id = chosen_id session_id context_id hex in
      let metadata : SessionMetadata = record {
        session_id = id;
        context_id = context_id;
        created_at = now;
        session_type = session_type;
      } in
      let state : SessionState = record {
        status = active;
        last_activity_at = now;
        turn_count = 0;
      } in
      (
        new_context metadata state,
        record {
          files = save digest metadata state r.files;
          routes = set_override is_space context_id id r.routes;
        },
      )

  -- after `resume` of the active session: none for an exception that is not caught
  or_create :
      String
      → SessionType
      → (hex : String) (now : ℕ) → Registry
      → Resumed
      → Option SessionContext × Registry
  unfolding create
  or_create context_id session_type hex now r (resumed ctx) = (some ctx, r)
  or_create context_id session_type hex now r session_not_found =
      let (ctx, r') = create context_id session_type none hex now r in (some ctx, r')
  or_create context_id session_type hex now r resume_value_error = (none, r)

  abbrev resume_active : Option String → ℕ → Registry → Resumed
  unfolding resume
  resume_active none now r = session_not_found
  resume_active (some session_id) now r = resume session_id now r

  unfoldable pub get_or_create :
      String → SessionType → (hex : String) (now : ℕ) → Registry → Option SessionContext × Registry
  unfolding or_create resume
  get_or_create context_id session_type hex now r =
      or_create context_id session_type hex now r
        (resume_active (get_active_session is_space context_id r.routes) now r)

  abbrev routed_to : String → Option String → Bool
  routed_to session_id none = false
  routed_to session_id (some active_id) = active_id == session_id

  -- what `archive_session` does after `update_state`
  abbrev after_archive : String → SessionMetadata → Service → Bool × MetadataDir → Bool × Registry
  after_archive session_id metadata routes (false, files) =
      (false, record { files = files; routes = routes })
  after_archive session_id metadata routes (true, files) = (
    true,
    record {
      files = files;
      routes =
          if routed_to session_id (get_active_session is_space metadata.context_id routes)
          then clear_active_session is_space metadata.context_id routes
          else routes;
    },
  )

  abbrev archive_loaded : String → ℕ → Loaded → Registry → Option Bool × Registry
  archive_loaded session_id now absent r = (some false, r)
  archive_loaded session_id now load_value_error r = (none, r)
  archive_loaded session_id now (found metadata state) r =
      let (done, r') =
        after_archive session_id metadata r.routes
          (update_state digest session_id (with_status archived now state) r.files) in
      (some done, r')

  -- none for a ValueError of `load`
  unfoldable pub archive_session : String → ℕ → Registry → Option Bool × Registry
  archive_session session_id now r =
      archive_loaded session_id now (load digest session_id r.files) r

  unfoldable pub persist_state : SessionContext → Registry → Bool × Registry
  persist_state ctx r =
      let (ok, files) = update_state digest ctx.metadata.session_id ctx.state r.files in
      (ok, record r { files = files })
