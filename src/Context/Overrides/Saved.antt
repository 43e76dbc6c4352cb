-- ===== src/Context/Overrides/Saved.antt =====
-- What a service of src/assistant/core/session_context saves, it loads.
use Prim.Native.Char.{Char}
use private_claw.Prelude.{
  true, String, ◌≡◌, refl, append-nil, append_assoc, none, some, Bool, false, [], ◌∷◌, ◌++◌, All,
  ap, sym, ◌∙◌, subst, Bool-cases, inl, inr, ◌==◌, string_eq, arith,
}
use private_claw.Prelude.Dict.{Dict, lookup, insert, erase, NodupKeys}
use private_claw.Subagents.Params.{strip, or_default}
use private_claw.Context.Overrides.{Service, save, load_entries, load, saved, add_loaded}

module _ (is_space : Char → Bool) where
  -- stripped, and not empty
  abbrev pub IsClean : String → Type 0
  IsClean s = (strip is_space s ≡ s) × ((s == "") ≡ false)

  abbrev pub CleanEntries : Dict String String → Type 0
  CleanEntries = All (λ e. IsClean e.0 × IsClean e.1)

  pub lookup-IsClean :
      (k v : String) (d : Dict String String) → CleanEntries d → lookup k d ≡ some v → IsClean v
  unfolding lookup
  lookup-IsClean k v [] h e = absurd (cc e)
  lookup-IsClean k v ((j, w) ∷ d) h e = elim (Bool-cases (j == k)) [
    | inl same ↦
        let found : some w ≡ some v = ground (arith, e, same) in
        subst IsClean (ap (λ o. or_default o v) found) h.0.1
    | inr other ↦ lookup-IsClean k v d h.1 (ground (arith, e, other))
  ]

  pub insert-CleanEntries :
      (k v : String) (d : Dict String String)
      → IsClean k
      → IsClean v
      → CleanEntries d
      → CleanEntries (insert k v d)
  unfolding insert
  insert-CleanEntries k v [] ck cv h = ((ck, cv), tt)
  insert-CleanEntries k v ((j, w) ∷ d) ck cv h = elim (Bool-cases (j == k)) [
    | inl same ↦ rw same ((ck, cv), h.1)
    | inr other ↦ rw other (h.0, insert-CleanEntries k v d ck cv h.1)
  ]

  pub erase-CleanEntries :
      (k : String) (d : Dict String String) → CleanEntries d → CleanEntries (erase k d)
  unfolding erase
  erase-CleanEntries k [] h = tt
  erase-CleanEntries k ((j, w) ∷ d) h = elim (Bool-cases (j == k)) [
    | inl same ↦ rw same (erase-CleanEntries k d h.1)
    | inr other ↦ rw other (h.0, erase-CleanEntries k d h.1)
  ]

  -- none of the keys of a dict is `k`
  lookup-All :
      (k : String) (d : Dict String String) → lookup k d ≡ none → All (λ e. (k == e.0) ≡ false) d
  unfolding lookup
  lookup-All k [] h = tt
  lookup-All k ((j, w) ∷ d) h = elim (Bool-cases (j == k)) [
    | inl same ↦ absurd (ground (arith, h, same))
    | inr other ↦ (ground (arith, other), lookup-All k d (ground (arith, h, other)))
  ]

  insert_last :
      (k v : String) (d : Dict String String) → lookup k d ≡ none → insert k v d ≡ d ++ (k, v) ∷ []
  unfolding insert lookup
  insert_last k v [] h = refl
  insert_last k v ((j, w) ∷ d) h = elim (Bool-cases (j == k)) [
    | inl same ↦ absurd (ground (arith, h, same))
    | inr other ↦ rw other (ap (◌∷◌ (j, w)) (insert_last k v d (ground (arith, h, other))))
  ]

  lookup-append_none :
      (j k v : String) (d : Dict String String)
      → lookup j d ≡ none
      → (k == j) ≡ false
      → lookup j (d ++ (k, v) ∷ []) ≡ none
  unfolding lookup
  lookup-append_none j k v [] h e = ground (arith, e)
  lookup-append_none j k v ((i, w) ∷ d) h e = elim (Bool-cases (i == j)) [
    | inl same ↦ absurd (ground (arith, h, same))
    | inr other ↦ rw other (lookup-append_none j k v d (ground (arith, h, other)) e)
  ]

  All-both :
      (P Q R : String × String → Type 0) (d : Dict String String)
      → ((x : String × String) → P x → Q x → R x)
      → All P d
      → All Q d
      → All R d
  All-both P Q R [] f h g = tt
  All-both P Q R (x ∷ d) f h g = (f x h.0 g.0, All-both P Q R d f h.1 g.1)

  -- Reading back what was written adds it to what is there.
  load_entries-saved :
      (acc d : Dict String String)
      → NodupKeys d
      → CleanEntries d
      → All (λ e. lookup e.0 acc ≡ none) d
      → load_entries is_space acc (saved d) ≡ acc ++ d
  unfolding load_entries add_loaded
  load_entries-saved acc [] n h f = sym (append-nil acc)
  load_entries-saved acc ((k, v) ∷ d) n h f =
      let added : add_loaded is_space (strip is_space k) (strip is_space v) acc
          ≡ acc ++ (k, v) ∷ [] =
        ap (λ x. add_loaded is_space x (strip is_space v) acc) h.0.0.0
        ∙ ap (λ x. add_loaded is_space k x acc) h.0.1.0
        ∙ ground (arith, insert_last k v acc f.0, h.0.0.1, h.0.1.1) in
      ap (λ a. load_entries is_space a (saved d)) added
      ∙ load_entries-saved (acc ++ (k, v) ∷ []) d n.1 h.1
          (All-both _ _ _ d (λ x g e. lookup-append_none x.0 k v acc g e) f.1 (lookup-All k d n.0))
      ∙ append_assoc acc ((k, v) ∷ []) d

  none_yet : (d : Dict String String) → All (λ e. lookup {V = String} e.0 [] ≡ none) d
  unfolding lookup
  none_yet [] = tt
  none_yet (x ∷ d) = (refl, none_yet d)

  -- What the service saves is what it loads.
  pub load-save :
      (d : Dict String String) (s : Service)
      → NodupKeys d
      → CleanEntries d
      → s.writable ≡ true
      → load is_space s.writable (save is_space d s).file ≡ save is_space d s
  unfolding load save
  load-save d s n h w =
      let loaded : Dict String String → Service =
        λ e. record { entries = e; writable = true; file = some (saved d) } in
      rw w (ap loaded (load_entries-saved [] d n h (none_yet d)))
