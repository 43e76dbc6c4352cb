-- ===== src/Store/Idempotency/Cleanup.antt =====
-- The cleanup of src/assistant/store/filesystem/idempotency.py.
use private_claw.Prelude.{ℕ, ◌+◌, ◌≤◌, String, ◌≡◌, [], ◌∷◌, length, arith, refl, string_eq}
use private_claw.Prelude.Dict.{NodupKeys}
use private_claw.Store.Files.{malformed, holds}
use private_claw.Store.Idempotency.Reads.{read-cleanup}
use private_claw.Store.Idempotency.{Ledger, record_path, check, cleanup_expired, is_expired}

length-cleanup :
    (now : String → ℕ) (s : Ledger)
    → (cleanup_expired now s).0 + length (cleanup_expired now s).1 ≡ length s
unfolding cleanup_expired
length-cleanup now [] = refl
length-cleanup now ((p, malformed) ∷ s) = omega (arith, length-cleanup now s)
length-cleanup now ((p, holds r) ∷ s) = ground (arith, length-cleanup now s)

-- A cleanup is invisible to every check whose clock is not before the one that the cleanup read
-- for that path, and it reports as many removals as there are files fewer. The files have
-- different names.
pub check-cleanup :
    (digest : String → String) (now : String → ℕ) (s : Ledger)
    → NodupKeys s
    → ((key : String) (later : ℕ)
        → now (record_path digest key) ≤ later
        → check digest key later (cleanup_expired now s).1 ≡ check digest key later s)
      × ((cleanup_expired now s).0 + length (cleanup_expired now s).1 ≡ length s)
unfolding check is_expired
check-cleanup digest now s u =
    (λ key later h. ground (arith, read-cleanup digest now key s u), length-cleanup now s)
