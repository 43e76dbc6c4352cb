-- ===== src/Memory/Samples.antt =====
-- Runs of the memory service on small directories, and the witnesses of its theorems.
use Prim.Native.Char.{Char, code}
use private_claw.Prelude.{
  ℕ, String, ◌≡◌, refl, none, some, Bool, true, false, List, [], ◌∷◌, ◌++◌, map, filter, ◌==◌,
  nat_eq, string_eq, string_discrete, ℕ_discrete,
}
use private_claw.Prelude.Dict.{lookup, insert, erase}
use private_claw.Prelude.Texts.{starts_with}
use private_claw.Store.Recovery.{distinct}
use private_claw.Subagents.Params.{strip, strip_left, strip_right}
use private_claw.Memory.{
  MemoryArtifact, MemoryType, projects, facts, MemoryUpdateIntent, upsert_action, WriteAudit,
  written, in_category, is_path_safe, artifact_path, scan_artifacts,
}
use private_claw.Memory.Dedup.{
  find_dedup_target, best_from, union_after, stable_union, merge_artifact,
}
use private_claw.Memory.Indexes.{
  ids_at, add_ids, remove_id, remove_ids, insert_recent, sort_onto, sort_recent, add_entries,
  entries_of, build_indexes, add_artifact, remove_artifact, build,
}
use private_claw.Memory.Indexes.Postings.{is_other}
use private_claw.Memory.Indexes.Rebuilt.{add_artifact-remove_artifact}
use private_claw.Memory.Write.{
  Service, Call, apply_intent, load_seen_intent_ids, upsert, delete, touch, write_at, reindexed,
  artifact_of,
}
use private_claw.Memory.Write.Once.{apply, restart, step, run}

abbrev itself : String → String
itself s = s

abbrev blank : Char → Bool
blank c = code c == b' '

abbrev digits : ℕ → String
digits n = "n"

abbrev artifact : String → MemoryType → List String → List String → ℕ → MemoryArtifact
artifact memory_id memory_type tags entities at = record {
  frontmatter = record {
    memory_id = memory_id;
    memory_type = memory_type;
    tags = tags;
    entities = entities;
    priority = 5;
    confidence = 80;
    updated_at = at;
    last_used_at = none;
    created_at = some at;
  };
  body = "text";
}

abbrev house : MemoryArtifact
house = artifact "house" projects ("home" ∷ []) ("anna" ∷ []) 3

abbrev paint : MemoryArtifact
paint = artifact "paint" facts ("home" ∷ "colour" ∷ []) ("house" ∷ []) 5

abbrev both : List MemoryArtifact
both = house ∷ paint ∷ []

abbrev new_paint : MemoryArtifact
new_paint = artifact "paint" facts ("work" ∷ []) ("house" ∷ []) 9

abbrev intent : String → MemoryUpdateIntent
intent intent_id = record {
  intent_id = intent_id;
  action = upsert_action;
  memory_type = facts;
  memory_id = none;
  candidate = some (record {
    tags = "home" ∷ [];
    entities = [];
    priority = 5;
    confidence = 80;
    body_markdown = " red walls ";
  });
}

abbrev call : Call
call = record { now = 7; new_suffix = "1f"; parse_error = "malformed" }

abbrev no_memory : Service
no_memory = record { files = []; indexes = none; audit = []; seen = [] }

memory : Unit {0}
unfolding apply_intent step run load_seen_intent_ids upsert delete touch write_at reindexed
    artifact_of find_dedup_target best_from union_after stable_union merge_artifact distinct strip
    strip_left strip_right in_category is_path_safe artifact_path scan_artifacts add_ids remove_id
    remove_ids insert_recent sort_onto sort_recent add_entries entries_of build_indexes add_artifact
    remove_artifact build lookup insert erase starts_with string_discrete ℕ_discrete
memory = tt

abbrev first : WriteAudit
first = record { intent_id = "i1"; status = written; memory_id = some "facts-1f"; reason = "" }

-- the second intent is merged into the artifact of the first
merged_second :
    map
      (λ a. a.body)
      (scan_artifacts
        (run itself blank digits 50 true
          (apply (intent "i1") call ∷ restart ∷ apply (intent "i2") call ∷ [])
          no_memory).files)
    ≡ "red walls\n\n---\n\nred walls" ∷ []
unfolding memory
merged_second = refl

-- an update of a project takes the others that name it out of its entry
project_lost :
    let ix = build_indexes itself both in
    (ids_at "house" ix.by_project ≡ "house" ∷ "paint" ∷ [])
    × (ids_at "house"
          (add_artifact itself house
            (remove_artifact itself projects "house" ("home" ∷ []) ("anna" ∷ []) ix)).by_project
        ≡ "house" ∷ [])
unfolding memory
project_lost = (refl, refl)

other_id : (house.frontmatter.memory_id == "paint") ≡ false
unfolding memory
other_id = refl

add_artifact-remove_artifact_example :
    let updated = add_artifact itself new_paint (
      remove_artifact itself facts "paint"
        ("home" ∷ "colour" ∷ [])
        ("house" ∷ [])
        (build_indexes itself both)) in
    let rebuilt = build_indexes itself (filter (is_other "paint") both ++ new_paint ∷ []) in
    ((t : String) → ids_at t updated.by_type ≡ ids_at t rebuilt.by_type)
    × ((t : String) → ids_at t updated.by_tag ≡ ids_at t rebuilt.by_tag)
    × ((t : String) → ids_at t updated.by_entity ≡ ids_at t rebuilt.by_entity)
    × (updated.by_recency ≡ rebuilt.by_recency)
add_artifact-remove_artifact_example =
    add_artifact-remove_artifact itself facts "paint" ("home" ∷ "colour" ∷ []) ("house" ∷ []) both
      new_paint (λ same t e. cc (same, other_id), (λ same t e. e, tt))
      (λ same t e. cc (same, other_id), (λ same t e. e, tt))
      (λ same t e. cc (same, other_id), (λ same t e. e, tt))
