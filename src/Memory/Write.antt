-- ===== src/Memory/Write.antt =====
-- MemoryWriteService of src/assistant/memory/write/service.py, over the audit log of
-- src/assistant/memory/write/intent_audit.py.
pub mod Once
use Prim.Native.Char.{Char}
use Prim.Native.String.{◌++◌ as ◌&◌}
use private_claw.Prelude.{
  ℕ, String, Option, none, some, Bool, true, false, List, [], ◌∷◌, ◌++◌, contains, ltb, ◌==◌,
  string_eq, if◌then◌else◌,
}
use private_claw.Prelude.Dict.{lookup, insert, erase}
use private_claw.Store.Files.{Document, malformed, holds}
use private_claw.Memory.{
  MemoryType, MemoryArtifact, MemoryUpdateIntentCandidate, MemoryUpdateIntent, upsert_action,
  delete_action, touch_action, WriteStatus, written, updated, deleted, touched,
  skipped_low_confidence, idempotent_noop, rejected_invalid, WriteAudit, Files, value,
  artifact_path,
}
use private_claw.Memory.Dedup.{find_dedup_target, merge_artifact}
use private_claw.Memory.Indexes.{Indexes, add_artifact, remove_artifact, build}

-- A line of the audit log: a record, or a line that is skipped.
pub data AuditLine : Type 0 where
  audit_record : (intent_id : String) → WriteStatus → (memory_id : Option String) → AuditLine
  unread : AuditLine

-- The service: the artifacts, the indexes (none where a file of them is missing), the audit log, and
-- `_seen_intent_ids`.
pub record Service : Type 0 where
  pub files : Files
  pub indexes : Option Indexes
  pub audit : List AuditLine
  pub seen : List String

-- what a call meets: the clock, the suffix of a new identifier, and what the parser says of a file
pub record Call : Type 0 where
  pub now : ℕ
  pub new_suffix : String
  pub parse_error : String

-- what an operation gives: an audit, or the ValueError of an identifier that is not safe in a path
pub data Answer : Type 0 where
  audited : WriteAudit → Answer
  value_error : Answer

unfoldable pub load_seen_intent_ids : List AuditLine → List String
load_seen_intent_ids [] = []
load_seen_intent_ids (audit_record intent_id _ _ ∷ lines) = intent_id ∷ load_seen_intent_ids lines
load_seen_intent_ids (unread ∷ lines) = load_seen_intent_ids lines

-- the constructor, over the files that are there
abbrev pub start : Service → Service
start s = record s { seen = load_seen_intent_ids s.audit }

abbrev answer_with : MemoryUpdateIntent → WriteStatus → Option String → String → Answer
answer_with intent status memory_id reason = audited (record {
  intent_id = intent.intent_id;
  status = status;
  memory_id = memory_id;
  reason = reason;
})

-- an identifier that is given and not empty
abbrev given : Option String → Option String
given none = none
given (some s) = if s == "" then none else some s

-- where an upsert goes: `memory_id`, `is_update` and `is_dedup_merge`
pub record Target : Type 0 where
  pub memory_id : String
  pub is_update : Bool
  pub is_dedup_merge : Bool

abbrev exists : {A : Type 0} → Option A → Bool
exists none = false
exists (some _) = true

-- whether an intent with this status counts as applied
abbrev pub is_final : WriteStatus → Bool
is_final rejected_invalid = false
is_final idempotent_noop = false
is_final _ = true

abbrev recorded : MemoryUpdateIntent → Answer × Service → Answer × Service
recorded intent (value_error, s) = (value_error, s)
recorded intent (audited audit, s) =
    if is_final audit.status
    then (
      audited audit,
      record s {
        seen = intent.intent_id ∷ s.seen;
        audit = s.audit ++ audit_record intent.intent_id audit.status audit.memory_id ∷ [];
      },
    )
    else (audited audit, s)

-- `shown` is the text of a confidence.
module _ (lower : String → String) (is_space : Char → Bool) (shown : ℕ → String)
    (min_confidence : ℕ) (dedup_enabled : Bool) where
  abbrev with_target : MemoryUpdateIntent → Call → Option String → Target
  with_target intent call none = record {
    memory_id = value intent.memory_type & "-" & call.new_suffix;
    is_update = false;
    is_dedup_merge = false;
  }
  with_target intent call (some dedup_id) = record {
    memory_id = dedup_id;
    is_update = true;
    is_dedup_merge = true;
  }

  -- for an identifier that is given, `artifact_path` and `path.exists()`
  abbrev target_at : String → Option String → Files → Option Target
  target_at memory_id none files = none
  target_at memory_id (some path) files = some (record {
    memory_id = memory_id;
    is_update = exists (lookup path files);
    is_dedup_merge = false;
  })

  abbrev target_of :
      MemoryUpdateIntent
      → MemoryUpdateIntentCandidate
      → Call
      → Option String
      → Files
      → Option Target
  target_of intent cand call (some memory_id) files =
      target_at memory_id (artifact_path intent.memory_type memory_id) files
  target_of intent cand call none files = some (
      with_target intent call (
        if dedup_enabled
        then find_dedup_target lower is_space intent.memory_type cand.tags cand.entities files
        else none))

  abbrev artifact_from :
      MemoryUpdateIntent
      → MemoryUpdateIntentCandidate
      → Call
      → String
      → Option ℕ
      → Option ℕ
      → MemoryArtifact
  artifact_from intent cand call memory_id last_used_at created_at = record {
    frontmatter = record {
      memory_id = memory_id;
      memory_type = intent.memory_type;
      tags = cand.tags;
      entities = cand.entities;
      priority = cand.priority;
      confidence = cand.confidence;
      updated_at = call.now;
      last_used_at = last_used_at;
      created_at = created_at;
    };
    body = cand.body_markdown;
  }

  -- the artifact that is written, from the file that is there
  unfoldable pub artifact_of :
      MemoryUpdateIntent
      → MemoryUpdateIntentCandidate
      → Call
      → Target
      → Option (Document MemoryArtifact)
      → MemoryArtifact
  artifact_of intent cand call target none =
      artifact_from intent cand call target.memory_id none
        (if target.is_update then none else some call.now)
  artifact_of intent cand call target (some malformed) =
      artifact_from intent cand call target.memory_id none
        (if target.is_dedup_merge then none else some call.now)
  artifact_of intent cand call target (some (holds existing)) =
      if target.is_dedup_merge
      then merge_artifact lower is_space existing cand call.now
      else if target.is_update
      then artifact_from intent cand call target.memory_id existing.frontmatter.last_used_at
          existing.frontmatter.created_at
      else artifact_from intent cand call target.memory_id none (some call.now)

  abbrev old_tags : Option (Document MemoryArtifact) → List String
  old_tags (some (holds existing)) = existing.frontmatter.tags
  old_tags _ = []

  abbrev old_entities : Option (Document MemoryArtifact) → List String
  old_entities (some (holds existing)) = existing.frontmatter.entities
  old_entities _ = []

  -- the indexes after a write of an artifact, whose old entries go where it is an update
  unfoldable pub reindexed :
      MemoryType
      → String
      → Bool
      → Option (Document MemoryArtifact)
      → MemoryArtifact
      → Files
      → Option Indexes
      → Indexes
  reindexed memory_type memory_id is_update old artifact files none = build lower files
  reindexed memory_type memory_id is_update old artifact files (some ix) =
      add_artifact lower artifact (
        if is_update
        then remove_artifact lower memory_type memory_id (old_tags old) (old_entities old) ix
        else ix)

  abbrev status_of : Bool → WriteStatus
  status_of true = updated
  status_of false = written

  -- `atomic_write_text` of the artifact and the update of the indexes
  unfoldable pub write_at :
      MemoryUpdateIntent
      → MemoryUpdateIntentCandidate
      → Call
      → Target
      → Option String
      → Service
      → Answer × Service
  unfolding artifact_of reindexed
  write_at intent cand call target none s = (value_error, s)
  write_at intent cand call target (some path) s =
      let old = lookup path s.files in
      let artifact = artifact_of intent cand call target old in
      let files' = insert path (holds artifact) s.files in
      (
        answer_with intent (status_of target.is_update) (some target.memory_id) "",
        record s {
          files = files';
          indexes = some (
              reindexed intent.memory_type target.memory_id target.is_update old artifact files'
                s.indexes);
        },
      )

  abbrev upsert_to :
      MemoryUpdateIntent
      → MemoryUpdateIntentCandidate
      → Call
      → Option Target
      → Service
      → Answer × Service
  upsert_to intent cand call none s = (value_error, s)
  upsert_to intent cand call (some target) s =
      write_at intent cand call target (artifact_path intent.memory_type target.memory_id) s

  abbrev upsert_with :
      MemoryUpdateIntent → Call → Option MemoryUpdateIntentCandidate → Service → Answer × Service
  upsert_with intent call none s =
      (answer_with intent rejected_invalid none "upsert requires candidate", s)
  upsert_with intent call (some cand) s =
      if ltb cand.confidence min_confidence
      then (
        answer_with intent skipped_low_confidence none
            ("confidence " & shown cand.confidence & " below threshold " & shown min_confidence),
        s,
      )
      else upsert_to intent cand call (target_of intent cand call (given intent.memory_id) s.files)
          s

  unfoldable pub upsert : MemoryUpdateIntent → Call → Service → Answer × Service
  unfolding write_at
  upsert intent call s = upsert_with intent call intent.candidate s

  abbrev removed_from :
      MemoryUpdateIntent
      → String
      → Option (Document MemoryArtifact)
      → Option Indexes
      → Option Indexes
  removed_from intent memory_id old none = none
  removed_from intent memory_id old (some ix) =
      some (remove_artifact lower intent.memory_type memory_id (old_tags old) (old_entities old) ix)

  abbrev delete_file :
      MemoryUpdateIntent
      → String
      → String
      → Option (Document MemoryArtifact)
      → Service
      → Answer × Service
  delete_file intent memory_id path none s =
      (answer_with intent deleted (some memory_id) "already absent", s)
  delete_file intent memory_id path (some document) s = (
    answer_with intent deleted (some memory_id) "",
    record s {
      files = erase path s.files;
      indexes = removed_from intent memory_id (some document) s.indexes;
    },
  )

  abbrev delete_at : MemoryUpdateIntent → String → Option String → Service → Answer × Service
  delete_at intent memory_id none s = (value_error, s)
  delete_at intent memory_id (some path) s =
      delete_file intent memory_id path (lookup path s.files) s

  abbrev delete_given : MemoryUpdateIntent → Option String → Service → Answer × Service
  delete_given intent none s =
      (answer_with intent rejected_invalid none "delete requires memory_id", s)
  delete_given intent (some memory_id) s =
      delete_at intent memory_id (artifact_path intent.memory_type memory_id) s

  unfoldable pub delete : MemoryUpdateIntent → Service → Answer × Service
  delete intent s = delete_given intent (given intent.memory_id) s

  abbrev touch_file :
      MemoryUpdateIntent
      → Call
      → String
      → String
      → Option (Document MemoryArtifact)
      → Service
      → Answer × Service
  touch_file intent call memory_id path none s =
      (answer_with intent rejected_invalid (some memory_id) "artifact not found", s)
  touch_file intent call memory_id path (some malformed) s =
      (answer_with intent rejected_invalid (some memory_id) call.parse_error, s)
  touch_file intent call memory_id path (some (holds artifact)) s =
      let touched_artifact = record artifact {
        frontmatter = record artifact.frontmatter { last_used_at = some call.now };
      } in
      let files' = insert path (holds touched_artifact) s.files in
      (
        answer_with intent touched (some memory_id) "",
        record s {
          files = files';
          indexes = some (
              reindexed intent.memory_type memory_id true (some (holds artifact)) touched_artifact
                files' s.indexes);
        },
      )

  abbrev touch_at : MemoryUpdateIntent → Call → String → Option String → Service → Answer × Service
  touch_at intent call memory_id none s = (value_error, s)
  touch_at intent call memory_id (some path) s =
      touch_file intent call memory_id path (lookup path s.files) s

  abbrev touch_given : MemoryUpdateIntent → Call → Option String → Service → Answer × Service
  touch_given intent call none s =
      (answer_with intent rejected_invalid none "touch requires memory_id", s)
  touch_given intent call (some memory_id) s =
      touch_at intent call memory_id (artifact_path intent.memory_type memory_id) s

  unfoldable pub touch : MemoryUpdateIntent → Call → Service → Answer × Service
  unfolding reindexed
  touch intent call s = touch_given intent call (given intent.memory_id) s

  abbrev apply_action : MemoryUpdateIntent → Call → Service → Answer × Service
  apply_action intent call s = elim intent.action [
    | upsert_action ↦ upsert intent call s
    | delete_action ↦ delete intent s
    | touch_action ↦ touch intent call s
  ]

  unfoldable pub apply_intent : MemoryUpdateIntent → Call → Service → Answer × Service
  unfolding upsert delete touch
  apply_intent intent call s =
      if contains s.seen intent.intent_id
      then (answer_with intent idempotent_noop none "duplicate intent_id", s)
      else recorded intent (apply_action intent call s)
