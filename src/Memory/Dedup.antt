-- ===== src/Memory/Dedup.antt =====
-- The artifact that a new memory is merged into: src/assistant/memory/write/dedup.py.
use Prim.Native.Char.{Char}
use Prim.Native.String.{◌++◌ as ◌&◌}
use private_claw.Prelude.{
  ℕ, ◌+◌, max, String, Option, none, some, Bool, true, false, List, [], ◌∷◌, ◌++◌, map, filter,
  length, contains, ltb, ◌==◌, ◌&&◌, ◌||◌, string_eq, nat_eq, if◌then◌else◌,
}
use private_claw.Store.Recovery.{distinct}
use private_claw.Subagents.Params.{strip}
use private_claw.Memory.{
  MemoryType, MemoryFrontmatter, MemoryArtifact, MemoryUpdateIntentCandidate, Files, in_category,
}

-- `lower` is str.lower, and `is_space` str.isspace of a character.
module _ (lower : String → String) (is_space : Char → Bool) where
  -- `len(a & b)` of the sets of the texts in lower case
  abbrev pub overlap : List String → List String → ℕ
  overlap xs ys = length (filter (contains (map lower ys)) (distinct (map lower xs)))

  abbrev pub overlap_with : List String → List String → MemoryFrontmatter → ℕ
  overlap_with tags entities fm = overlap tags fm.tags + overlap entities fm.entities

  -- whether a candidate, by its overlap and confidence, comes before another in reverse order
  abbrev is_better : ℕ × ℕ → ℕ × ℕ → Bool
  is_better (o, c) (o', c') = ltb o' o || (o == o' && ltb c' c)

  abbrev choose : Option (String × (ℕ × ℕ)) → String → ℕ × ℕ → Option (String × (ℕ × ℕ))
  choose none memory_id key = some (memory_id, key)
  choose (some (best, key')) memory_id key =
      if is_better key key' then some (memory_id, key) else some (best, key')

  -- the first of the candidates in their sorted order, which is the first that none is better than
  unfoldable pub best_from :
      List String
      → List String
      → Option (String × (ℕ × ℕ))
      → List MemoryArtifact
      → Option (String × (ℕ × ℕ))
  unfolding distinct
  best_from tags entities best [] = best
  best_from tags entities best (a ∷ artifacts) =
      let n = overlap_with tags entities a.frontmatter in
      let next = choose best a.frontmatter.memory_id (n, a.frontmatter.confidence) in
      best_from tags entities (if ltb 0 n then next else best) artifacts

  abbrev id_of : Option (String × (ℕ × ℕ)) → Option String
  id_of none = none
  id_of (some (memory_id, _)) = some memory_id

  unfoldable pub find_dedup_target : MemoryType → List String → List String → Files → Option String
  unfolding best_from
  find_dedup_target memory_type tags entities files =
      id_of (best_from tags entities none (in_category memory_type files))

  -- the elements whose lower case is new, after the texts that were seen
  unfoldable pub union_after : List String → List String → List String
  union_after seen [] = []
  union_after seen (x ∷ xs) = elim (contains seen (lower x)) [
    | true ↦ union_after seen xs
    | false ↦ x ∷ union_after (lower x ∷ seen) xs
  ]

  unfoldable pub stable_union : List String → List String → List String
  unfolding union_after
  stable_union a b = union_after [] (a ++ b)

  abbrev joined : String → String → String
  joined body new_body =
      if new_body == ""
      then body
      else if body == ""
      then new_body
      else body & "\n\n---\n\n" & new_body

  unfoldable pub merge_artifact : MemoryArtifact → MemoryUpdateIntentCandidate → ℕ → MemoryArtifact
  unfolding stable_union
  merge_artifact existing cand updated_at =
      let fm = existing.frontmatter in
      record {
        frontmatter = record fm {
          tags = stable_union fm.tags cand.tags;
          entities = stable_union fm.entities cand.entities;
          priority = max fm.priority cand.priority;
          confidence = max fm.confidence cand.confidence;
          updated_at = updated_at;
        };
        body = joined (strip is_space existing.body) (strip is_space cand.body_markdown);
      }
