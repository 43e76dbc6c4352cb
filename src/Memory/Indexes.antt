-- ===== src/Memory/Indexes.antt =====
-- The indexes of memory: src/assistant/memory/indexing/indexer.py. The five index files are one
-- value; a file that cannot be read holds an empty index.
pub mod Recency
pub mod Lookups
pub mod Postings
pub mod Rebuilt
use private_claw.Prelude.{
  ℕ, String, Option, none, some, List, [], ◌∷◌, ◌++◌, filter, leb, not, ◌==◌, string_eq,
  if◌then◌else◌, map,
}
use private_claw.Prelude.Dict.{Dict, lookup, insert, erase}
use private_claw.Memory.{
  MemoryType, MemoryFrontmatter, MemoryArtifact, Files, value, is_projects, scan_artifacts,
}

abbrev pub Index : Type 0
Index = Dict String (List String)

pub record Indexes : Type 0 where
  pub by_type : Index
  pub by_tag : Index
  pub by_entity : Index
  pub by_project : Index
  pub by_recency : List (String × ℕ)

abbrev pub or_empty : Option (List String) → List String
or_empty none = []
or_empty (some ids) = ids

-- `index.get(k, [])`
abbrev pub ids_at : String → Index → List String
ids_at k d = or_empty (lookup k d)

-- `index.setdefault(k, []).append(mid)`
abbrev pub add_id : String → String → Index → Index
add_id mid k d = insert k (ids_at k d ++ mid ∷ []) d

unfoldable pub add_ids : String → List String → Index → Index
add_ids mid [] d = d
add_ids mid (k ∷ ks) d = add_ids mid ks (add_id mid k d)

abbrev store_ids : String → List String → Index → Index
store_ids k [] d = erase k d
store_ids k (id ∷ ids) d = insert k (id ∷ ids) d

abbrev without : String → List String → List String
without mid = filter (λ x. not (x == mid))

abbrev drop_id : String → String → Option (List String) → Index → Index
drop_id mid k none d = d
drop_id mid k (some ids) d = store_ids k (without mid ids) d

-- the removal of an identifier at a key, and of the key where no other is left
unfoldable pub remove_id : String → String → Index → Index
remove_id mid k d = drop_id mid k (lookup k d) d

unfoldable pub remove_ids : String → List String → Index → Index
unfolding remove_id
remove_ids mid [] d = d
remove_ids mid (k ∷ ks) d = remove_ids mid ks (remove_id mid k d)

-- an element put behind those that are as new or newer, in an order with the newest first
unfoldable pub insert_recent : String × ℕ → List (String × ℕ) → List (String × ℕ)
insert_recent x [] = x ∷ []
insert_recent x (y ∷ l) =
    let rest = insert_recent x l in if leb x.1 y.1 then y ∷ rest else x ∷ y ∷ l

unfoldable pub sort_onto : List (String × ℕ) → List (String × ℕ) → List (String × ℕ)
unfolding insert_recent
sort_onto sorted [] = sorted
sort_onto sorted (x ∷ xs) = sort_onto (insert_recent x sorted) xs

-- `sort(key=..., reverse=True)`, which keeps the order of equal elements
unfoldable pub sort_recent : List (String × ℕ) → List (String × ℕ)
unfolding sort_onto
sort_recent = sort_onto []

abbrev used_at : MemoryFrontmatter → ℕ → Option ℕ → ℕ
used_at fm at none = at
used_at fm at (some last) = last

abbrev pub recency : MemoryFrontmatter → String × ℕ
recency fm = (fm.memory_id, used_at fm fm.updated_at fm.last_used_at)

abbrev own_project : MemoryFrontmatter → List String
own_project fm = if is_projects fm.memory_type then fm.memory_id ∷ [] else []

module _ (lower : String → String) where
  -- The entries of an artifact, but for the order of the recent ones: the loops that
  -- `_build_indexes` and `add_artifact` have in common.
  unfoldable pub add_entries : MemoryFrontmatter → Indexes → Indexes
  unfolding add_ids
  add_entries fm ix = record {
    by_type = add_id fm.memory_id (value fm.memory_type) ix.by_type;
    by_tag = add_ids fm.memory_id (map lower fm.tags) ix.by_tag;
    by_entity = add_ids fm.memory_id (map lower fm.entities) ix.by_entity;
    by_project =
        add_ids fm.memory_id (map lower fm.entities)
          (add_ids fm.memory_id (own_project fm) ix.by_project);
    by_recency = ix.by_recency ++ recency fm ∷ [];
  }

  abbrev pub sort_indexes : Indexes → Indexes
  sort_indexes ix = record ix { by_recency = sort_recent ix.by_recency }

  unfoldable pub entries_of : List MemoryArtifact → Indexes → Indexes
  unfolding add_entries
  entries_of [] ix = ix
  entries_of (a ∷ artifacts) ix = entries_of artifacts (add_entries a.frontmatter ix)

  abbrev pub empty_indexes : Indexes
  empty_indexes = record {
    by_type = [];
    by_tag = [];
    by_entity = [];
    by_project = [];
    by_recency = [];
  }

  unfoldable pub build_indexes : List MemoryArtifact → Indexes
  unfolding entries_of
  build_indexes artifacts = sort_indexes (entries_of artifacts empty_indexes)

  unfoldable pub add_artifact : MemoryArtifact → Indexes → Indexes
  unfolding add_entries
  add_artifact artifact ix = sort_indexes (add_entries artifact.frontmatter ix)

  unfoldable pub remove_artifact :
      MemoryType → String → List String → List String → Indexes → Indexes
  unfolding remove_ids
  remove_artifact memory_type memory_id tags entities ix = record {
    by_type = remove_id memory_id (value memory_type) ix.by_type;
    by_tag = remove_ids memory_id (map lower tags) ix.by_tag;
    by_entity = remove_ids memory_id (map lower entities) ix.by_entity;
    by_project = remove_ids memory_id (map lower entities) (erase memory_id ix.by_project);
    by_recency = filter (λ e. not (e.0 == memory_id)) ix.by_recency;
  }

  unfoldable pub build : Files → Indexes
  unfolding build_indexes
  build files = build_indexes (scan_artifacts files)
