-- ===== src/Capabilities/Expand.antt =====
-- The expansion of nested capabilities in src/assistant/core/capabilities/loader.py.
use private_claw.Prelude.{
  ℕ, zero, suc, ◌<◌, String, ◌≡◌, refl, none, true, false, List, [], ◌∷◌, ◌++◌, length, contains,
  contains-append, arith, string_eq, All, All-append, subst, sym, Bool-cases, Option-cases, inl,
  inr,
}
use private_claw.Prelude.Dict.{lookup}
use private_claw.Capabilities.{Definitions, nested_of, expand, expand_nested_capabilities}
use private_claw.Capabilities.Undone.{undone, undone-le, undone-length-le, undone-lt}

-- An expansion keeps what there was, has every identifier asked for, and with each new capability
-- the nested ones of it.
record IsExpansion (definitions : Definitions) (ids result result' : List String) : Type 0 where
  pub grows : (a : String) → contains result a ≡ true → contains result' a ≡ true
  pub covers : (a : String) → contains ids a ≡ true → contains result' a ≡ true
  pub closed :
      (a b : String)
      → contains result' a ≡ true
      → contains result a ≡ false
      → contains (nested_of definitions a) b ≡ true
      → contains result' b ≡ true

-- There is fuel for every definition that is left, if there is anything to expand.
abbrev HasFuel : Definitions → ℕ → List String → List String → Type 0
HasFuel definitions fuel [] result = Unit
HasFuel definitions fuel (_ ∷ _) result = undone definitions result < fuel

HasFuel-any :
    (definitions : Definitions) (fuel : ℕ) (ids result : List String)
    → undone definitions result < fuel
    → HasFuel definitions fuel ids result
HasFuel-any definitions fuel [] result h = tt
HasFuel-any definitions fuel (_ ∷ _) result h = h

nested_of-nil :
    (definitions : Definitions) (id : String)
    → lookup id definitions ≡ none
    → nested_of definitions id ≡ []
unfolding nested_of
nested_of-nil definitions id e = ground (arith, e)

HasFuel-nested :
    (definitions : Definitions) (fuel : ℕ) (id : String) (result : List String)
    → contains result id ≡ false
    → undone definitions result < suc fuel
    → HasFuel definitions fuel (nested_of definitions id) (result ++ id ∷ [])
HasFuel-nested definitions fuel id result new h = elim (Option-cases (lookup id definitions)) [
  | inl e ↦
      subst (λ ns. HasFuel definitions fuel ns (result ++ id ∷ []))
        (sym (nested_of-nil definitions id e)) tt
  | inr (d, e) ↦
      HasFuel-any definitions fuel _ _ (omega (arith, undone-lt definitions id result d e new))
]

-- one identifier more, and then the others
IsExpansion-cons :
    (definitions : Definitions) (id : String) (ids result mid result' : List String)
    → IsExpansion definitions (id ∷ []) result mid
    → IsExpansion definitions ids mid result'
    → IsExpansion definitions (id ∷ ids) result result'
IsExpansion-cons definitions id ids result mid result' h k = record {
  grows = λ a e. k.grows a (h.grows a e);
  covers = λ a e. ground (arith, e, h.covers a, k.grows a, k.covers a);
  closed = λ a b e f g. elim (Bool-cases (contains mid a)) [
    | inl old ↦ k.grows b (h.closed a b old f g)
    | inr new ↦ k.closed a b e new g
  ];
}

IsExpansion-present :
    (definitions : Definitions) (id : String) (result : List String)
    → contains result id ≡ true
    → IsExpansion definitions (id ∷ []) result result
IsExpansion-present definitions id result h = record {
  grows = λ a e. e;
  covers = λ a e. ground (arith, e, h);
  closed = λ a b e f g. absurd (ground (arith, e, f));
}

IsExpansion-new :
    (definitions : Definitions) (id : String) (result mid : List String)
    → IsExpansion definitions (nested_of definitions id) (result ++ id ∷ []) mid
    → IsExpansion definitions (id ∷ []) result mid
IsExpansion-new definitions id result mid h = record {
  grows = λ a e. ground (arith, e, h.grows a, contains-append result (id ∷ []) a);
  covers = λ a e. ground (arith, e, h.grows a, contains-append result (id ∷ []) a);
  closed = λ a b e f g. elim (Bool-cases (contains (result ++ id ∷ []) a)) [
    | inl here ↦
        let same : a ≡ id = ground (arith, here, f, contains-append result (id ∷ []) a) in
        h.covers b (subst (λ x. contains (nested_of definitions x) b ≡ true) same g)
    | inr absent ↦ h.closed a b e absent g
  ];
}

expand-IsExpansion :
    (definitions : Definitions) (fuel : ℕ) (ids result : List String)
    → HasFuel definitions fuel ids result
    → IsExpansion definitions ids result (expand definitions fuel ids result)
unfolding expand
expand-IsExpansion definitions fuel [] result h = record {
  grows = λ a e. e;
  covers = λ a e. absurd (ground (arith, e));
  closed = λ a b e f g. absurd (ground (arith, e, f));
}
expand-IsExpansion definitions zero (id ∷ ids) result h = absurd (omega arith)
expand-IsExpansion definitions (suc fuel) (id ∷ ids) result h =
    elim (Bool-cases (contains result id)) [
      | inl e ↦ rw e (
          IsExpansion-cons definitions id ids result result _
            (IsExpansion-present definitions id result e)
            (expand-IsExpansion definitions (suc fuel) ids result
              (HasFuel-any definitions (suc fuel) ids result h)))
      | inr e ↦
          let mid = expand definitions fuel (nested_of definitions id) (result ++ id ∷ []) in
          let inner = IsExpansion-new definitions id result mid (
            expand-IsExpansion definitions fuel (nested_of definitions id) (result ++ id ∷ [])
              (HasFuel-nested definitions fuel id result e h)) in
          rw e (
            IsExpansion-cons definitions id ids result mid _ inner (
              expand-IsExpansion definitions (suc fuel) ids mid (
                HasFuel-any definitions (suc fuel) ids mid
                  (omega (arith, undone-le definitions result mid inner.grows)))))
    ]

-- no identifier stands twice
abbrev pub HasNoTwice : List String → Type 0
HasNoTwice [] = Unit
HasNoTwice (x ∷ xs) = (contains xs x ≡ false) × HasNoTwice xs

pub HasNoTwice-snoc :
    (xs : List String) (a : String)
    → contains xs a ≡ false
    → HasNoTwice xs
    → HasNoTwice (xs ++ a ∷ [])
HasNoTwice-snoc [] a e h = (refl, tt)
HasNoTwice-snoc (x ∷ xs) a e h = (
  ground (arith, e, h.0, contains-append xs (a ∷ []) x),
  HasNoTwice-snoc xs a (ground (arith, e)) h.1,
)

expand-HasNoTwice :
    (definitions : Definitions) (fuel : ℕ) (ids result : List String)
    → HasNoTwice result
    → HasNoTwice (expand definitions fuel ids result)
unfolding expand
expand-HasNoTwice definitions fuel [] result h = h
expand-HasNoTwice definitions zero (id ∷ ids) result h = h
expand-HasNoTwice definitions (suc fuel) (id ∷ ids) result h =
    elim (Bool-cases (contains result id)) [
      | inl e ↦ rw e (expand-HasNoTwice definitions (suc fuel) ids result h)
      | inr e ↦ rw e (
          expand-HasNoTwice definitions (suc fuel) ids _ (
            expand-HasNoTwice definitions fuel (nested_of definitions id) (result ++ id ∷ [])
              (HasNoTwice-snoc result id e h)))
    ]

-- What the enabled capabilities grant: they themselves, and what is nested in what they grant.
pub data IsGranted (enabled : List String) (definitions : Definitions) : String → Type 0 where
  enabled_itself : {a : String} → contains enabled a ≡ true → IsGranted enabled definitions a
  nested_in :
      {a b : String}
      → IsGranted enabled definitions a
      → contains (nested_of definitions a) b ≡ true
      → IsGranted enabled definitions b

All-of_contains :
    (P : String → Type 0) (xs : List String)
    → ((a : String) → contains xs a ≡ true → P a)
    → All P xs
All-of_contains P [] h = tt
All-of_contains P (x ∷ xs) h =
    (h x (ground arith), All-of_contains P xs (λ a e. h a (ground (arith, e))))

expand-IsGranted :
    (enabled : List String) (definitions : Definitions) (fuel : ℕ) (ids result : List String)
    → All (IsGranted enabled definitions) ids
    → All (IsGranted enabled definitions) result
    → All (IsGranted enabled definitions) (expand definitions fuel ids result)
unfolding expand
expand-IsGranted enabled definitions fuel [] result i h = h
expand-IsGranted enabled definitions zero (id ∷ ids) result i h = h
expand-IsGranted enabled definitions (suc fuel) (id ∷ ids) result i h =
    elim (Bool-cases (contains result id)) [
      | inl e ↦ rw e (expand-IsGranted enabled definitions (suc fuel) ids result i.1 h)
      | inr e ↦ rw e (
          expand-IsGranted enabled definitions (suc fuel) ids _ i.1 (
            expand-IsGranted enabled definitions fuel (nested_of definitions id) (result ++ id ∷ [])
              (All-of_contains (IsGranted enabled definitions) (nested_of definitions id)
                (λ b g. IsGranted.nested_in i.0 g))
              (All-append (IsGranted enabled definitions) result (id ∷ []) h (i.0, tt))))
    ]

-- The expansion is the closure of the enabled capabilities under nesting, whatever cycles there
-- are: it has each enabled one, and with each one it has those nested in it; it has nothing but
-- what the enabled ones grant; and it has none twice. The fuel is enough for that.
pub expand_nested_capabilities_lem :
    (enabled : List String) (definitions : Definitions)
    → let result = expand_nested_capabilities enabled definitions in
      ((a : String) → contains enabled a ≡ true → contains result a ≡ true)
      × ((a b : String)
          → contains result a ≡ true
          → contains (nested_of definitions a) b ≡ true
          → contains result b ≡ true)
      × All (IsGranted enabled definitions) result
      × HasNoTwice result
unfolding expand_nested_capabilities
expand_nested_capabilities_lem enabled definitions =
    let fuel = suc (length definitions) in
    let h =
      expand-IsExpansion definitions fuel enabled []
        (HasFuel-any definitions fuel enabled [] (omega (arith, undone-length-le definitions))) in
    (
      h.covers,
      (λ a b e g. h.closed a b e refl g),
      expand-IsGranted enabled definitions fuel enabled []
          (All-of_contains (IsGranted enabled definitions) enabled
            (λ a e. IsGranted.enabled_itself e))
          tt,
      expand-HasNoTwice definitions fuel enabled [] tt,
    )
