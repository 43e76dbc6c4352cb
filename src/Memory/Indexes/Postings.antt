-- ===== src/Memory/Indexes/Postings.antt =====
-- An index as a function of the artifacts that are in it.
use private_claw.Prelude.{
  String, ◌≡◌, refl, Bool, true, false, List, [], ◌∷◌, ◌++◌, filter, All, contains, filter-append,
  append-nil, append_assoc, not, ◌==◌, string_eq, arith, Bool-cases, inl, inr, if◌then◌else◌,
}
use private_claw.Memory.{MemoryFrontmatter, MemoryArtifact}
use private_claw.Memory.Indexes.{Index, ids_at, add_ids, without, remove_ids}
use private_claw.Memory.Indexes.Lookups.{hits, ids-add_ids, ids-remove_ids}

-- the artifact is that of another identifier
abbrev pub is_other : String → MemoryArtifact → Bool
is_other mid a = not (a.frontmatter.memory_id == mid)

without-hits :
    (mid m t : String) (ks : List String)
    → without mid (hits m t ks) ≡ (if m == mid then [] else hits m t ks)
without-hits mid m t [] = ground arith
without-hits mid m t (k ∷ ks) = ground (arith, without-hits mid m t ks)

hits-none : (m t : String) (ks : List String) → contains ks t ≡ false → hits m t ks ≡ []
hits-none m t [] h = refl
hits-none m t (k ∷ ks) h = ground (arith, hits-none m t ks)

-- An index by the keys of an artifact, in artifacts: the identifiers at a key, in order.
module _ (keys : MemoryFrontmatter → List String) where
  abbrev pub postings : String → List MemoryArtifact → List String
  postings t [] = []
  postings t (a ∷ artifacts) =
      hits a.frontmatter.memory_id t (keys a.frontmatter) ++ postings t artifacts

  postings-append :
      (t : String) (xs ys : List MemoryArtifact)
      → postings t (xs ++ ys) ≡ postings t xs ++ postings t ys
  postings-append t [] ys = refl
  postings-append t (a ∷ xs) ys = simp (
    postings-append t xs ys,
    append_assoc (hits a.frontmatter.memory_id t (keys a.frontmatter)) (postings t xs)
        (postings t ys),
  )

  without-postings :
      (mid t : String) (xs : List MemoryArtifact)
      → without mid (postings t xs) ≡ postings t (filter (is_other mid) xs)
  without-postings mid t [] = refl
  without-postings mid t (a ∷ xs) = ground (
    arith,
    filter-append (λ x. not (x == mid)) (hits a.frontmatter.memory_id t (keys a.frontmatter))
        (postings t xs),
    without-hits mid a.frontmatter.memory_id t (keys a.frontmatter),
    without-postings mid t xs,
  )

  -- the artifacts of an identifier have no other keys than these
  abbrev pub IsCovered : String → List String → List MemoryArtifact → Type 0
  IsCovered mid ks = All (λ a.
      (a.frontmatter.memory_id == mid) ≡ true
      → (t : String) → contains ks t ≡ false
      → contains (keys a.frontmatter) t ≡ false)

  postings-uncovered :
      (mid t : String) (ks : List String) (xs : List MemoryArtifact)
      → IsCovered mid ks xs
      → contains ks t ≡ false
      → postings t (filter (is_other mid) xs) ≡ postings t xs
  postings-uncovered mid t ks [] h e = refl
  postings-uncovered mid t ks (a ∷ xs) h e = elim (Bool-cases (a.frontmatter.memory_id == mid)) [
    | inl same ↦ simp (
      same,
      hits-none a.frontmatter.memory_id t (keys a.frontmatter) (h.0 same t e),
      postings-uncovered mid t ks xs h.1 e,
    )
    | inr other ↦ simp (other, postings-uncovered mid t ks xs h.1 e)
  ]

  -- the removal of the keys of an identifier leaves what the other artifacts give
  removed-postings :
      (mid t : String) (ks : List String) (xs : List MemoryArtifact) (d : Index)
      → IsCovered mid ks xs
      → ids_at t d ≡ postings t xs
      → ids_at t (remove_ids mid ks d) ≡ postings t (filter (is_other mid) xs)
  removed-postings mid t ks xs d h e = elim (Bool-cases (contains ks t)) [
    | inl c ↦ simp (c, ids-remove_ids mid t ks d, e, without-postings mid t xs)
    | inr c ↦ simp (c, ids-remove_ids mid t ks d, e, postings-uncovered mid t ks xs h c)
  ]

  pub updated-postings :
      (mid t : String) (ks : List String) (xs : List MemoryArtifact) (new : MemoryArtifact)
      (d : Index)
      → IsCovered mid ks xs
      → ids_at t d ≡ postings t xs
      → ids_at t (add_ids new.frontmatter.memory_id (keys new.frontmatter) (remove_ids mid ks d))
        ≡ postings t (filter (is_other mid) xs ++ new ∷ [])
  updated-postings mid t ks xs new d h e = simp (
    ids-add_ids new.frontmatter.memory_id t (keys new.frontmatter) (remove_ids mid ks d),
    removed-postings mid t ks xs d h e,
    postings-append t (filter (is_other mid) xs) (new ∷ []),
    append-nil (hits new.frontmatter.memory_id t (keys new.frontmatter)),
  )
