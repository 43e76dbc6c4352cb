-- ===== src/Context/Samples.antt =====
-- Runs of the session contexts on small inputs.
use Prim.Native.Char.{Char, code}
use private_claw.Prelude.{
  String, ◌≡◌, ◌≢◌, refl, none, some, Bool, true, List, [], ◌∷◌, ◌==◌, nat_eq, string_eq,
  string_discrete, ℕ_discrete,
}
use private_claw.Prelude.Dict.{lookup, insert}
use private_claw.Subagents.Params.{strip, strip_left, strip_right}
use private_claw.Store.Lock.{read_lock_record, write_lock_record, acquire, grant}
use private_claw.Context.Overrides.{
  Service, save, load, set_override, get_active_session, clear_active_session, load_entries,
}
use private_claw.Context.Overrides.Refines.{
  Command, set, clear, restart, active_session, run, step, spec_run, spec_step, IsSynced,
  run-spec_run,
}
use private_claw.Context.Metadata.{active, regular}
use private_claw.Context.Sessions.{SessionContext, new_context, enter, entered, exit, lock_key_of}
use private_claw.Context.Sessions.SharedLock.{held_context, enter_shared}

abbrev blank : Char → Bool
blank c = code c == b' '

abbrev started : Service
started = load blank true none

abbrev commands : List Command
commands =
    set " tg:1 " "s1" ∷ set "tg:2" " " ∷ restart ∷ set "tg:1" "s2" ∷ clear "tg:3" ∷ restart ∷ []

program : Unit {0}
unfolding run step set_override save load strip strip_left strip_right lookup insert
    get_active_session spec_run spec_step clear_active_session load_entries string_discrete
    ℕ_discrete
program = tt

started-IsSynced : IsSynced blank started
unfolding load
started-IsSynced = record { distinct = tt; clean = tt; writable = refl; synced = refl }

routes_survive :
    get_active_session blank "tg:1" (run blank active_session commands started) ≡ some "s2"
unfolding program
routes_survive = refl

-- the context is not stripped where it is looked up
routes_as_given :
    get_active_session blank " tg:1" (run blank active_session commands started) ≡ none
unfolding program
routes_as_given = refl

run-spec_run_example :
    get_active_session blank "tg:1" (run blank active_session commands started)
    ≡ spec_run blank commands (λ x. lookup x started.entries) "tg:1"
run-spec_run_example = run-spec_run blank active_session commands started "tg:1" started-IsSynced

abbrev itself : String → String
itself s = s

abbrev session : SessionContext
session =
    new_context
      (record { session_id = "s1"; context_id = "tg:1"; created_at = 3; session_type = regular })
      (record { status = active; last_activity_at = 3; turn_count = 0 })

entered_first : (enter itself 30 5 5 session []).0 ≢ none
unfolding enter entered acquire grant read_lock_record write_lock_record lookup insert
    string_discrete
entered_first e = cc e

enter_shared_example :
    let locks' = (enter itself 30 5 5 session []).1 in
    let (second, locks'') = enter itself 30 6 6 session locks' in
    (second ≡ some (held_context itself 30 6 session))
    × (read_lock_record itself
          (exit itself 7 true (held_context itself 30 5 session) locks'').1
          (lock_key_of "s1")
        ≡ none)
enter_shared_example = enter_shared itself 30 session session [] 5 5 6 6 7 true refl entered_first
