-- ===== src/Memory/Indexes/Rebuilt.antt =====
-- The indexes after an update of an artifact answer as those that are built anew.
use private_claw.Prelude.{
  String, ◌≡◌, refl, sym, ◌∙◌, List, [], ◌∷◌, ◌++◌, map, filter, append_assoc, append-nil, not,
  ◌==◌, string_eq, arith,
}
use private_claw.Prelude.Dict.{lookup-nil}
use private_claw.Memory.{MemoryType, MemoryFrontmatter, MemoryArtifact, value}
use private_claw.Memory.Indexes.{
  Index, Indexes, ids_at, add_ids, remove_ids, recency, add_entries, entries_of, empty_indexes,
  build_indexes, add_artifact, remove_artifact, sort_recent,
}
use private_claw.Memory.Indexes.Lookups.{hits, ids-add_ids}
use private_claw.Memory.Indexes.Postings.{is_other, postings, IsCovered, updated-postings}
use private_claw.Memory.Indexes.Recency.{sort_recent-append, filter-sort_recent}

abbrev pub type_keys : MemoryFrontmatter → List String
type_keys fm = value fm.memory_type ∷ []

module _ (lower : String → String) where
  abbrev pub tag_keys : MemoryFrontmatter → List String
  tag_keys fm = map lower fm.tags

  abbrev pub entity_keys : MemoryFrontmatter → List String
  entity_keys fm = map lower fm.entities

  -- one of the indexes, by what an artifact adds to it
  module _ (keys : MemoryFrontmatter → List String) (index : Indexes → Index)
      (index-empty : index (empty_indexes lower) ≡ [])
      (index-add_entries : (fm : MemoryFrontmatter) (ix : Indexes)
        → index (add_entries lower fm ix) ≡ add_ids fm.memory_id (keys fm) (index ix)) where
    ids-entries_of :
        (t : String) (artifacts : List MemoryArtifact) (ix : Indexes)
        → ids_at t (index (entries_of lower artifacts ix))
          ≡ ids_at t (index ix) ++ postings keys t artifacts
    unfolding entries_of
    ids-entries_of t [] ix = sym (append-nil (ids_at t (index ix)))
    ids-entries_of t (a ∷ artifacts) ix = simp (
      ids-entries_of t artifacts (add_entries lower a.frontmatter ix),
      index-add_entries a.frontmatter ix,
      ids-add_ids a.frontmatter.memory_id t (keys a.frontmatter) (index ix),
      append_assoc (ids_at t (index ix)) (hits a.frontmatter.memory_id t (keys a.frontmatter))
          (postings keys t artifacts),
    )

    ids-built :
        (t : String) (artifacts : List MemoryArtifact)
        → ids_at t (index (entries_of lower artifacts (empty_indexes lower)))
          ≡ postings keys t artifacts
    ids-built t artifacts = simp (
      ids-entries_of t artifacts (empty_indexes lower),
      index-empty,
      lookup-nil {V = List String} t,
    )

    ids-updated :
        (mid t : String) (ks : List String) (xs : List MemoryArtifact) (new : MemoryArtifact)
        → IsCovered keys mid ks xs
        → ids_at t (
            add_ids new.frontmatter.memory_id
              (keys new.frontmatter)
              (remove_ids mid ks (index (entries_of lower xs (empty_indexes lower)))))
          ≡ ids_at t (
              index (entries_of lower (filter (is_other mid) xs ++ new ∷ []) (empty_indexes lower)))
    ids-updated mid t ks xs new h =
        updated-postings keys mid t ks xs new (index (entries_of lower xs (empty_indexes lower))) h
          (ids-built t xs)
        ∙ sym (ids-built t (filter (is_other mid) xs ++ new ∷ []))

  recent-entries_of :
      (artifacts : List MemoryArtifact) (ix : Indexes)
      → (entries_of lower artifacts ix).by_recency
        ≡ ix.by_recency ++ map (λ a. recency a.frontmatter) artifacts
  unfolding entries_of add_entries
  recent-entries_of [] ix = sym (append-nil ix.by_recency)
  recent-entries_of (a ∷ artifacts) ix = simp (
    recent-entries_of artifacts (add_entries lower a.frontmatter ix),
    append_assoc ix.by_recency (recency a.frontmatter ∷ [])
        (map (λ a. recency a.frontmatter) artifacts),
  )

  recents-updated :
      (mid : String) (xs : List MemoryArtifact) (new : MemoryArtifact)
      → map (λ a. recency a.frontmatter) (filter (is_other mid) xs ++ new ∷ [])
        ≡ filter (λ e. not (e.0 == mid)) (map (λ a. recency a.frontmatter) xs)
          ++ recency new.frontmatter ∷ []
  recents-updated mid [] new = refl
  recents-updated mid (a ∷ xs) new = ground (arith, recents-updated mid xs new)

  recent-updated :
      (mid : String) (xs : List MemoryArtifact) (new : MemoryArtifact)
      → let recent = λ (artifacts : List MemoryArtifact).
        (entries_of lower artifacts (empty_indexes lower)).by_recency in
        sort_recent
          (filter (λ e. not (e.0 == mid)) (sort_recent (recent xs)) ++ recency new.frontmatter ∷ [])
        ≡ sort_recent (recent (filter (is_other mid) xs ++ new ∷ []))
  recent-updated mid xs new = simp (
    recent-entries_of xs (empty_indexes lower),
    recent-entries_of (filter (is_other mid) xs ++ new ∷ []) (empty_indexes lower),
    recents-updated mid xs new,
    filter-sort_recent (λ e. not (e.0 == mid)) (map (λ a. recency a.frontmatter) xs),
    sort_recent-append (filter (λ e. not (e.0 == mid)) (map (λ a. recency a.frontmatter) xs))
        (recency new.frontmatter),
  )

  -- An artifact takes the place of the artifacts of an identifier, in indexes that were built from
  -- artifacts: its type, tags and entities are among those that are given for the removal. Then the
  -- indexes by type, tag and entity give, for every key, the same identifiers in the same order as
  -- indexes that are built from the artifacts of the other identifiers and then the new one, and
  -- the index of the recent ones is the same.
  pub add_artifact-remove_artifact :
      (memory_type : MemoryType) (mid : String) (tags entities : List String)
      (xs : List MemoryArtifact) (new : MemoryArtifact)
      → IsCovered type_keys mid (value memory_type ∷ []) xs
      → IsCovered tag_keys mid (map lower tags) xs
      → IsCovered entity_keys mid (map lower entities) xs
      → let updated =
          add_artifact lower new
            (remove_artifact lower memory_type mid tags entities (build_indexes lower xs)) in
        let rebuilt = build_indexes lower (filter (is_other mid) xs ++ new ∷ []) in
        ((t : String) → ids_at t updated.by_type ≡ ids_at t rebuilt.by_type)
        × ((t : String) → ids_at t updated.by_tag ≡ ids_at t rebuilt.by_tag)
        × ((t : String) → ids_at t updated.by_entity ≡ ids_at t rebuilt.by_entity)
        × (updated.by_recency ≡ rebuilt.by_recency)
  unfolding add_artifact remove_artifact build_indexes add_entries add_ids remove_ids
  add_artifact-remove_artifact memory_type mid tags entities xs new h_type h_tag h_entity = (
    λ t.
        ids-updated type_keys (λ ix. ix.by_type) refl (λ fm ix. refl) mid t (value memory_type ∷ [])
          xs new h_type,
    λ t.
        ids-updated tag_keys (λ ix. ix.by_tag) refl (λ fm ix. refl) mid t (map lower tags) xs new
          h_tag,
    λ t.
        ids-updated entity_keys (λ ix. ix.by_entity) refl (λ fm ix. refl) mid t (map lower entities)
          xs new h_entity,
    recent-updated mid xs new,
  )
