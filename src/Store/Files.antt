-- ===== src/Store/Files.antt =====
-- Files of one JSON document, as the store reads and writes them, and the clock.
-- src/assistant/store/filesystem/atomic.py replaces a file as a whole, so a reader meets the old
-- document or the new one.
use private_claw.Prelude.{ℕ, ◌+◌, ◌*◌, Option, none, some}

-- What the parser makes of a file: the document, or the exceptions that the readers catch.
pub data Document {ℓ} (A : Type ℓ) : Type ℓ where
  malformed : Document A
  holds : A → Document A

-- `path.exists()`, then the document, then `except (JSONDecodeError, KeyError, ValueError)`
abbrev pub parsed {ℓ} : {A : Type ℓ} → Option (Document A) → Option A
parsed none = none
parsed (some malformed) = none
parsed (some (holds a)) = some a

-- A moment is a number of microseconds, the resolution of `datetime`.
abbrev pub after_seconds : ℕ → ℕ → ℕ
after_seconds now ttl = now + ttl * 1000000

-- `ttl_seconds if ttl_seconds is not None else self._default_ttl_seconds`
abbrev pub ttl_or : ℕ → Option ℕ → ℕ
ttl_or fallback none = fallback
ttl_or fallback (some ttl) = ttl
