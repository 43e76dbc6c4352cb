-- ===== src/Memory/Write/Once.antt =====
-- Each memory intent is applied once, over any sequence of calls and restarts.
use Prim.Native.Char.{Char}
use private_claw.Prelude.{ℕ, String, ◌≡◌, Bool, true, List, [], ◌∷◌, contains, string_eq}
use private_claw.Memory.{MemoryUpdateIntent}
use private_claw.Memory.Write.{Service, Call, Answer, start, load_seen_intent_ids, apply_intent}

-- a call of `apply_intent`, or a restart of the process, which reads the audit log
pub data Command : Type 0 where
  apply : MemoryUpdateIntent → Call → Command
  restart : Command

module _ (lower : String → String) (is_space : Char → Bool) (shown : ℕ → String)
    (min_confidence : ℕ) (dedup_enabled : Bool) where
  unfoldable pub step : Command → Service → Service
  step (apply intent call) s =
      (apply_intent lower is_space shown min_confidence dedup_enabled intent call s).1
  step restart s = start s

  unfoldable pub run : List Command → Service → Service
  unfolding step
  run [] s = s
  run (c ∷ cs) s = run cs (step c s)

  -- an identifier that is in the log and in memory
  abbrev IsSeen : String → Service → Type 0
  IsSeen id s = (contains s.seen id ≡ true) × (contains (load_seen_intent_ids s.audit) id ≡ true)

  -- the operations on artifacts leave the identifiers and the log alone
  abbrev Kept : Service → Answer × Service → Type 0
  Kept s w = (w.1.seen ≡ s.seen) × (w.1.audit ≡ s.audit)
