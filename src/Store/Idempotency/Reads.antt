-- ===== src/Store/Idempotency/Reads.antt =====
-- What `read_record` meets after a write and after a cleanup.
use private_claw.Prelude.{
  ℕ, String, ◌≡◌, Option, none, some, [], ◌∷◌, arith, if◌then◌else◌, ◌==◌, string_eq, refl,
}
use private_claw.Prelude.Dict.{lookup, lookup-insert, NodupKeys}
use private_claw.Store.Files.{malformed, holds, parsed}
use private_claw.Store.Idempotency.{
  IdempotencyRecord, Ledger, record_path, read_record, write_record, cleanup_expired, is_expired,
}

-- the record under a path, unless the scan of that path removes it
abbrev kept : ℕ → Option IdempotencyRecord → Option IdempotencyRecord
kept now none = none
kept now (some r) = if is_expired now r then none else some r

lookup-cleanup_absent :
    (now : String → ℕ) (p : String) (s : Ledger)
    → lookup p s ≡ none
    → lookup p (cleanup_expired now s).1 ≡ none
unfolding cleanup_expired lookup
lookup-cleanup_absent now p [] h = refl
lookup-cleanup_absent now p ((q, malformed) ∷ s) h = ground (arith, lookup-cleanup_absent now p s)
lookup-cleanup_absent now p ((q, holds r) ∷ s) h = ground (arith, lookup-cleanup_absent now p s)

lookup-cleanup :
    (now : String → ℕ) (p : String) (s : Ledger)
    → NodupKeys s
    → parsed (lookup p (cleanup_expired now s).1) ≡ kept (now p) (parsed (lookup p s))
unfolding cleanup_expired lookup
lookup-cleanup now p [] h = refl
lookup-cleanup now p ((q, malformed) ∷ s) h =
    ground (arith, lookup-cleanup now p s h.1, lookup-cleanup_absent now p s)
lookup-cleanup now p ((q, holds r) ∷ s) h =
    ground (arith, lookup-cleanup now p s h.1, lookup-cleanup_absent now p s)

pub cleanup-NodupKeys :
    (now : String → ℕ) (s : Ledger) → NodupKeys s → NodupKeys (cleanup_expired now s).1
unfolding cleanup_expired
cleanup-NodupKeys now [] h = tt
cleanup-NodupKeys now ((q, malformed) ∷ s) h = cleanup-NodupKeys now s h.1
cleanup-NodupKeys now ((q, holds r) ∷ s) h =
    ground (arith, cleanup-NodupKeys now s h.1, lookup-cleanup_absent now q s h.0)

module _ (digest : String → String) where
  pub read-write :
      (k : String) (r : IdempotencyRecord) (s : Ledger)
      → read_record digest (write_record digest s r) k ≡ (
          if record_path digest r.key == record_path digest k
          then some r
          else read_record digest s k)
  unfolding read_record write_record
  read-write k r s =
      ground (arith, lookup-insert (record_path digest k) (record_path digest r.key) (holds r) s)

  pub read_same_path :
      (k j : String) (s : Ledger)
      → record_path digest j ≡ record_path digest k
      → read_record digest s j ≡ read_record digest s k
  unfolding read_record
  read_same_path k j s e = rw e

  pub read-cleanup :
      (now : String → ℕ) (k : String) (s : Ledger)
      → NodupKeys s
      → read_record digest (cleanup_expired now s).1 k
        ≡ kept (now (record_path digest k)) (read_record digest s k)
  unfolding read_record
  read-cleanup now k s h = lookup-cleanup now (record_path digest k) s h
