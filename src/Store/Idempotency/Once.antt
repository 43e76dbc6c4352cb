-- ===== src/Store/Idempotency/Once.antt =====
-- An ingress event is accepted once: src/assistant/store/idempotency/service.py over the ledger,
-- with cleanups in between.
use private_claw.Prelude.{
  ℕ, suc, ◌<◌, String, ◌≡◌, refl, Option, none, some, Bool, true, false, List, [], ◌∷◌, All, arith,
  ◌==◌, if◌then◌else◌, string_eq, not, ◌≢◌,
}
use private_claw.Prelude.Dict.{NodupKeys, insert-NodupKeys}
use private_claw.Store.Files.{after_seconds, ttl_or}
use private_claw.Store.Idempotency
use private_claw.Store.Idempotency.Reads.{
  read-write, read_same_path, read-cleanup, cleanup-NodupKeys,
}
use private_claw.Store.Idempotency.{
  IdempotencyRecord, Ledger, Registration, registered, key_exists, duplicate_ingress, is_expired,
  build_key, record_path, read_record, write_record, check, new_record,
}

-- A call of the service or of the ledger's maintenance, with the readings of the clock it makes.
pub data Call : Type 0 where
  check_and_register : (source event_id : String) (ttl : Option ℕ) (seen now : ℕ) → Call
  register : (source event_id : String) (ttl : Option ℕ) (seen now again : ℕ) → Call
  cleanup : (now : String → ℕ) → Call

-- The clock is below `until` wherever the call tests an expiry.
abbrev pub IsBefore : ℕ → Call → Type 0
IsBefore until (check_and_register _ _ _ seen _) = seen < until
IsBefore until (register _ _ _ seen _ _) = seen < until
IsBefore until (cleanup now) = (path : String) → now path < until

-- the call registers the event of this key
abbrev is_for : String → Call → Bool
is_for key (check_and_register source event_id _ _ _) = build_key source event_id == key
is_for key (register source event_id _ _ _ _) = build_key source event_id == key
is_for key (cleanup _) = false

abbrev pub was_registered : Registration → Bool
was_registered (registered _) = true
was_registered _ = false

module _ (digest : String → String) (service_ttl fallback : ℕ) where
  -- whether the call accepted its event as new, and the directory that it leaves
  abbrev call : Call → Ledger → Bool × Ledger
  call (check_and_register source event_id ttl seen now) s =
      let r =
        Idempotency.check_and_register_ingress digest service_ttl fallback source event_id ttl seen
          now s in
      (elim r.0.0 [ true ↦ false | false ↦ true ], r.1)
  call (register source event_id ttl seen now again) s =
      let r =
        Idempotency.register_ingress digest service_ttl fallback source event_id ttl seen now again
          s in
      (was_registered r.0, r.1)
  call (cleanup now) s = (false, (Idempotency.cleanup_expired now s).1)

  -- how many of the calls accepted the event of the key, and the last directory
  unfoldable pub run : String → List Call → Ledger → ℕ × Ledger
  run key [] s = (0, s)
  run key (c ∷ cs) s =
      let (accepted, s') = call c s in
      let (n, last) = run key cs s' in
      (if is_for key c then (if accepted then suc n else n) else n, last)

  pub call-NodupKeys : (c : Call) (s : Ledger) → NodupKeys s → NodupKeys (call c s).1
  unfolding Idempotency.check_and_register_ingress Idempotency.register_ingress write_record
  call-NodupKeys (check_and_register source event_id ttl seen now) s h =
      grind (arith, insert-NodupKeys)
  call-NodupKeys (register source event_id ttl seen now again) s h = grind (arith, insert-NodupKeys)
  call-NodupKeys (cleanup now) s h = cleanup-NodupKeys now s h

  -- A record that has not expired outlives every call.
  read-call :
      (k : String) (r : IdempotencyRecord) (c : Call) (s : Ledger)
      → NodupKeys s
      → IsBefore (after_seconds r.created_at r.ttl_seconds) c
      → read_record digest s k ≡ some r
      → read_record digest (call c s).1 k ≡ some r
  unfolding Idempotency.check_and_register_ingress Idempotency.register_ingress check is_expired
  read-call k r (check_and_register source event_id ttl seen now) s u f h =
      grind (arith, read_same_path digest k (build_key source event_id) s, read-write)
  read-call k r (register source event_id ttl seen now again) s u f h =
      grind (arith, read_same_path digest k (build_key source event_id) s, read-write)
  read-call k r (cleanup now) s u f h =
      ground (arith, read-cleanup digest now k s u, f (record_path digest k))

  -- A call for the event of the key finds it registered.
  call_refused :
      (k : String) (r : IdempotencyRecord) (c : Call) (s : Ledger)
      → IsBefore (after_seconds r.created_at r.ttl_seconds) c
      → read_record digest s k ≡ some r
      → is_for k c ≡ true
      → (call c s).0 ≡ false
  unfolding Idempotency.check_and_register_ingress Idempotency.register_ingress check is_expired
  call_refused k r (check_and_register source event_id ttl seen now) s f h e = ground arith
  call_refused k r (register source event_id ttl seen now again) s f h e = ground arith
  call_refused k r (cleanup now) s f h e = refl

  run_registered :
      (k : String) (r : IdempotencyRecord) (cs : List Call) (s : Ledger)
      → NodupKeys s
      → All (IsBefore (after_seconds r.created_at r.ttl_seconds)) cs
      → read_record digest s k ≡ some r
      → ((run k cs s).0 ≡ 0) × (read_record digest (run k cs s).1 k ≡ some r)
  unfolding run
  run_registered k r [] s u f h = (refl, h)
  run_registered k r (c ∷ cs) s u f h = ground (
    arith,
    call_refused k r c s f.0 h,
    run_registered k r cs (call c s).1 (call-NodupKeys c s u) f.1 (read-call k r c s u f.0 h),
  )

  read-first :
      (source event_id : String) (ttl : Option ℕ) (seen now : ℕ) (s : Ledger)
      → (Idempotency.check_and_register_ingress digest service_ttl fallback source event_id ttl seen
          now s).0
        ≡ (false, none)
      → read_record digest
          (Idempotency.check_and_register_ingress digest service_ttl fallback source event_id ttl
            seen now s).1
          (build_key source event_id)
        ≡ some (
            new_record digest fallback
              (build_key source event_id)
              source
              (some (ttl_or service_ttl ttl))
              now)
  unfolding Idempotency.check_and_register_ingress
  read-first source event_id ttl seen now s h = grind (arith, read-write)

  -- Once `check_and_register` has accepted an event at the moment `now`, whatever events are
  -- delivered and whatever cleanups run with the clock before `now` plus the time to live, none of
  -- the later deliveries of the event is accepted, and its first registration is what a check
  -- finds at any moment before that.
  pub accepted_once :
      (source event_id : String) (ttl : Option ℕ) (seen now : ℕ) (s : Ledger) (cs : List Call)
      → NodupKeys s
      → (Idempotency.check_and_register_ingress digest service_ttl fallback source event_id ttl seen
          now s).0
        ≡ (false, none)
      → All (IsBefore (after_seconds now (ttl_or service_ttl ttl))) cs
      → let s' =
          (Idempotency.check_and_register_ingress digest service_ttl fallback source event_id ttl
            seen now s).1 in
        let key = build_key source event_id in
        ((run key cs s').0 ≡ 0)
        × ((later : ℕ)
            → later < after_seconds now (ttl_or service_ttl ttl)
            → check digest key later (run key cs s').1
              ≡ some (new_record digest fallback key source (some (ttl_or service_ttl ttl)) now))
  unfolding check is_expired
  accepted_once source event_id ttl seen now s cs u h f =
      let key = build_key source event_id in
      let r = new_record digest fallback key source (some (ttl_or service_ttl ttl)) now in
      let c = check_and_register source event_id ttl seen now in
      let (none_accepted, kept) =
        run_registered key r cs (call c s).1 (call-NodupKeys c s u) f
          (read-first source event_id ttl seen now s h) in
      (none_accepted, λ later before. ground arith)

  -- The two ways of registering an event agree: they leave the same ledger, the one returns a new
  -- record exactly when the other answers that the event is no duplicate, and a duplicate reaches
  -- the caller as DuplicateIngressError with what the second check finds, never as the ledger's
  -- IdempotencyKeyExistsError.
  pub register_agrees :
      (source event_id : String) (ttl : Option ℕ) (seen now again : ℕ) (s : Ledger)
      → let a =
          Idempotency.register_ingress digest service_ttl fallback source event_id ttl seen now
            again s in
        let b =
          Idempotency.check_and_register_ingress digest service_ttl fallback source event_id ttl
            seen now s in
        (a.1 ≡ b.1)
        × (was_registered a.0 ≡ not b.0.0)
        × (a.0 ≢ key_exists)
        × (b.0.0 ≡ true
            → a ≡ (
              duplicate_ingress
                  (build_key source event_id)
                  (check digest (build_key source event_id) again s),
              s,
            ))
  unfolding Idempotency.check_and_register_ingress Idempotency.register_ingress
  register_agrees source event_id ttl seen now again s =
      (ground arith, ground arith, ground arith, λ h. ground arith)
