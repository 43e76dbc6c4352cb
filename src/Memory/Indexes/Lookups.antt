-- ===== src/Memory/Indexes/Lookups.antt =====
-- What the operations on one index do to the identifiers at a key.
use private_claw.Prelude.{
  String, ◌≡◌, refl, sym, List, [], ◌∷◌, ◌++◌, contains, append-nil, append_assoc, ◌==◌, string_eq,
  arith, Bool-cases, Option-cases, inl, inr, if◌then◌else◌,
}
use private_claw.Prelude.Dict.{lookup, lookup-insert, lookup-erase}
use private_claw.Memory.Indexes.{
  Index, ids_at, add_id, add_ids, store_ids, without, remove_id, remove_ids,
}

-- the identifier, once for each of the keys that is the one that is asked for
abbrev pub hits : String → String → List String → List String
hits mid t [] = []
hits mid t (k ∷ ks) = let rest = hits mid t ks in if k == t then mid ∷ rest else rest

ids-add_id :
    (mid k t : String) (d : Index)
    → ids_at t (add_id mid k d) ≡ (if k == t then ids_at t d ++ mid ∷ [] else ids_at t d)
ids-add_id mid k t d = ground (arith, lookup-insert t k (ids_at k d ++ mid ∷ []) d)

pub ids-add_ids :
    (mid t : String) (ks : List String) (d : Index)
    → ids_at t (add_ids mid ks d) ≡ ids_at t d ++ hits mid t ks
unfolding add_ids
ids-add_ids mid t [] d = sym (append-nil (ids_at t d))
ids-add_ids mid t (k ∷ ks) d = elim (Bool-cases (k == t)) [
  | inl e ↦ simp (
    e,
    ids-add_ids mid t ks (add_id mid k d),
    ids-add_id mid k t d,
    append_assoc (ids_at t d) (mid ∷ []) (hits mid t ks),
  )
  | inr e ↦ simp (e, ids-add_ids mid t ks (add_id mid k d), ids-add_id mid k t d)
]

ids-store_ids :
    (k t : String) (ids : List String) (d : Index)
    → ids_at t (store_ids k ids d) ≡ (if k == t then ids else ids_at t d)
ids-store_ids k t [] d = ground (arith, lookup-erase t k d)
ids-store_ids k t (id ∷ ids) d = ground (arith, lookup-insert t k (id ∷ ids) d)

ids-remove_id :
    (mid k t : String) (d : Index)
    → ids_at t (remove_id mid k d) ≡ (if k == t then without mid (ids_at t d) else ids_at t d)
unfolding remove_id
ids-remove_id mid k t d = elim (Option-cases (lookup k d)) [
  | inl e ↦ rw e (ground (arith, e))
  | inr (ids, e) ↦ rw e (ground (arith, e, ids-store_ids k t (without mid ids) d))
]

without_idem : (mid : String) (ids : List String) → without mid (without mid ids) ≡ without mid ids
without_idem mid [] = refl
without_idem mid (x ∷ ids) = ground (arith, without_idem mid ids)

pub ids-remove_ids :
    (mid t : String) (ks : List String) (d : Index)
    → ids_at t (remove_ids mid ks d)
      ≡ (if contains ks t then without mid (ids_at t d) else ids_at t d)
unfolding remove_ids
ids-remove_ids mid t [] d = refl
ids-remove_ids mid t (k ∷ ks) d = ground (
  arith,
  ids-remove_ids mid t ks (remove_id mid k d),
  ids-remove_id mid k t d,
  without_idem mid (ids_at t d),
)
