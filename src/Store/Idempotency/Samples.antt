-- ===== src/Store/Idempotency/Samples.antt =====
-- Runs of the idempotency ledger and its service on small inputs.
use private_claw.Prelude.{
  ℕ, ◌+◌, ◌≤◌, ◌<◌, String, ◌≡◌, ◌≢◌, refl, none, some, true, false, not, List, [], ◌∷◌, length,
  arith, string_discrete, string_eq,
}
use private_claw.Prelude.Dict.{lookup, insert, NodupKeys}
use private_claw.Store.Files.{malformed, after_seconds, ttl_or}
use private_claw.Store.Idempotency.{
  Ledger, key_exists, duplicate_ingress, build_key, check, new_record, cleanup_expired,
  check_and_register_ingress, register_ingress, read_record, write_record,
}
use private_claw.Store.Idempotency.Once.{
  Call, check_and_register, register, cleanup, run, was_registered, accepted_once, register_agrees,
}
use private_claw.Store.Idempotency.Cleanup.{check-cleanup}

abbrev digest : String → String
digest s = s

abbrev start : Ledger
start = ("torn.json", malformed) ∷ []

program : Unit {0}
unfolding check_and_register_ingress register_ingress check read_record write_record cleanup_expired
    build_key lookup insert string_discrete run
program = tt

start-NodupKeys : NodupKeys start
unfolding program
start-NodupKeys = (refl, tt)

first_accepted :
    (check_and_register_ingress digest 60 86400 "telegram" "7" none 10 20 start).0 ≡ (false, none)
unfolding program
first_accepted = refl

abbrev later_calls : List Call
later_calls =
    check_and_register "telegram" "7" none 30 40
    ∷ cleanup (λ _. 50)
    ∷ register "telegram" "8" none 60 70 80
    ∷ register "telegram" "7" none 60 70 80
    ∷ []

accepted_once_example :
    let s' = (check_and_register_ingress digest 60 86400 "telegram" "7" none 10 20 start).1 in
    let key = build_key "telegram" "7" in
    ((run digest 60 86400 key later_calls s').0 ≡ 0)
    × ((later : ℕ)
        → later < after_seconds 20 (ttl_or 60 none)
        → check digest key later (run digest 60 86400 key later_calls s').1
          ≡ some (new_record digest 86400 key "telegram" (some (ttl_or 60 none)) 20))
accepted_once_example =
    accepted_once digest 60 86400 "telegram" "7" none 10 20 start later_calls start-NodupKeys
      first_accepted (omega arith, ((λ p. omega arith), (omega arith, (omega arith, tt))))

register_agrees_example :
    let a = register_ingress digest 60 86400 "telegram" "7" none 10 20 30 start in
    let b = check_and_register_ingress digest 60 86400 "telegram" "7" none 10 20 start in
    (a.1 ≡ b.1)
    × (was_registered a.0 ≡ not b.0.0)
    × (a.0 ≢ key_exists)
    × (b.0.0 ≡ true
        → a ≡ (
          duplicate_ingress
              (build_key "telegram" "7")
              (check digest (build_key "telegram" "7") 30 start),
          start,
        ))
register_agrees_example = register_agrees digest 60 86400 "telegram" "7" none 10 20 30 start

check-cleanup_example :
    ((key : String) (later : ℕ)
      → 5 ≤ later
      → check digest key later (cleanup_expired (λ _. 5) start).1 ≡ check digest key later start)
    × ((cleanup_expired (λ _. 5) start).0 + length (cleanup_expired (λ _. 5) start).1 ≡ 1)
check-cleanup_example = check-cleanup digest (λ _. 5) start start-NodupKeys
