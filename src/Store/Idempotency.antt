-- ===== src/Store/Idempotency.antt =====
-- FilesystemIdempotencyLedger of src/assistant/store/filesystem/idempotency.py, and the service in
-- front of it, IngressIdempotencyService of src/assistant/store/idempotency/service.py. The ledger
-- has one asyncio lock, so an operation is one step on the directory. Every `datetime.now` is an
-- argument.
pub mod Reads
pub mod Once
pub mod Cleanup
mod Samples
use Prim.Native.String.{◌++◌}
use private_claw.Prelude.{
  ℕ, suc, String, Option, none, some, Bool, true, false, List, [], ◌∷◌, leb, if◌then◌else◌, ◌==◌,
  string_eq,
}
use private_claw.Prelude.Dict.{Dict, lookup, insert}
use private_claw.Store.Files.{Document, malformed, holds, parsed, after_seconds, ttl_or}

pub record IdempotencyRecord : Type 0 where
  pub key : String
  pub source : String
  pub created_at : ℕ
  pub ttl_seconds : ℕ

abbrev pub Ledger : Type 0
Ledger = Dict String (Document IdempotencyRecord)

-- what `register` returns or raises, IdempotencyKeyExistsError or, in the service,
-- DuplicateIngressError with the key and the prior registration
pub data Registration : Type 0 where
  registered : IdempotencyRecord → Registration
  key_exists : Registration
  duplicate_ingress : String → Option IdempotencyRecord → Registration

unfoldable pub is_expired : ℕ → IdempotencyRecord → Bool
is_expired now r = leb (after_seconds r.created_at r.ttl_seconds) now

-- `f"{source}:{event_id}"`
unfoldable pub build_key : String → String → String
build_key source event_id = source ++ ":" ++ event_id

fresh_only : ℕ → Option IdempotencyRecord → Option IdempotencyRecord
unfolding is_expired
fresh_only now none = none
fresh_only now (some r) = if is_expired now r then none else some r

-- The paths that the scan meets are unlinked where the record has expired, or cannot be read.
-- `now` is the reading of the clock that the scan makes for a path.
unfoldable pub cleanup_expired : (String → ℕ) → Ledger → ℕ × Ledger
unfolding is_expired
cleanup_expired now [] = (0, [])
cleanup_expired now ((path, malformed) ∷ s) =
    let (removed, left) = cleanup_expired now s in (suc removed, left)
cleanup_expired now ((path, holds r) ∷ s) =
    let (removed, left) = cleanup_expired now s in
    if is_expired (now path) r then (suc removed, left) else (removed, (path, holds r) ∷ left)

-- `digest` is the first 32 hexadecimal digits of the SHA-256 of a text.
module _ (digest : String → String) where
  abbrev pub record_path : String → String
  record_path key = digest key ++ ".json"

  unfoldable pub read_record : Ledger → String → Option IdempotencyRecord
  read_record s key = parsed (lookup (record_path key) s)

  unfoldable pub write_record : Ledger → IdempotencyRecord → Ledger
  write_record s r = insert (record_path r.key) (holds r) s

  unfoldable pub check : String → ℕ → Ledger → Option IdempotencyRecord
  unfolding fresh_only
  check key now s = fresh_only now (read_record s key)

  -- the record that both ways of registering write
  abbrev pub new_record : ℕ → String → String → Option ℕ → ℕ → IdempotencyRecord
  new_record fallback key source ttl now = record {
    key = key;
    source = source;
    created_at = now;
    ttl_seconds = ttl_or fallback ttl;
  }

  -- `seen` is the clock when the old record's expiry is tested, `now` when the new one is stamped.
  unfoldable pub register :
      ℕ → String → String → Option ℕ → (seen now : ℕ) → Ledger → Registration × Ledger
  register fallback key source ttl seen now s = elim (check key seen s) [
    | some existing ↦ (key_exists, s)
    | none ↦ let r = new_record fallback key source ttl now in (registered r, write_record s r)
  ]

  unfoldable pub check_and_register :
      ℕ
      → String
      → String
      → Option ℕ
      → (seen now : ℕ) → Ledger
      → (Bool × Option IdempotencyRecord) × Ledger
  check_and_register fallback key source ttl seen now s = elim (check key seen s) [
    | some existing ↦ ((true, some existing), s)
    | none ↦ ((false, none), write_record s (new_record fallback key source ttl now))
  ]

  -- The service. `service_ttl` is its own default time to live, `fallback` the ledger's.
  module _ (service_ttl fallback : ℕ) where
    unfoldable pub is_duplicate : String → String → ℕ → Ledger → Bool
    is_duplicate source event_id now s = elim (check (build_key source event_id) now s) [
      | none ↦ false
      | some _ ↦ true
    ]

    or_duplicate : String → ℕ → Registration × Ledger → Registration × Ledger
    or_duplicate key again (key_exists, s) = (duplicate_ingress key (check key again s), s)
    or_duplicate key again (other, s) = (other, s)

    -- `again` is the clock at the second `check`, which finds the prior registration.
    unfoldable pub register_ingress :
        String → String → Option ℕ → (seen now again : ℕ) → Ledger → Registration × Ledger
    unfolding or_duplicate register
    register_ingress source event_id ttl seen now again s =
        let key = build_key source event_id in
        or_duplicate key again
          (register fallback key source (some (ttl_or service_ttl ttl)) seen now s)

    unfoldable pub check_and_register_ingress :
        String
        → String
        → Option ℕ
        → (seen now : ℕ) → Ledger
        → (Bool × Option IdempotencyRecord) × Ledger
    unfolding check_and_register
    check_and_register_ingress source event_id ttl seen now s =
        check_and_register fallback (build_key source event_id) source
          (some (ttl_or service_ttl ttl)) seen now s
