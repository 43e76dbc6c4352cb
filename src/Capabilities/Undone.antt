-- ===== src/Capabilities/Undone.antt =====
-- The definitions that an expansion has not met yet, a measure for
-- src/assistant/core/capabilities/loader.py.
use private_claw.Prelude.{
  ℕ, suc, ◌≤◌, ◌<◌, String, ◌≡◌, some, true, false, List, [], ◌∷◌, ◌++◌, contains, contains-append,
  if◌then◌else◌, arith, string_eq, length,
}
use private_claw.Prelude.Dict.{lookup}
use private_claw.Capabilities.{CapabilityDefinition, Definitions}

-- how many definitions have an identifier that `result` has not
pub undone : Definitions → List String → ℕ
undone [] result = 0
undone ((k, d) ∷ definitions) result =
    let rest = undone definitions result in if contains result k then rest else suc rest

pub undone-le :
    (definitions : Definitions) (xs ys : List String)
    → ((a : String) → contains xs a ≡ true → contains ys a ≡ true)
    → undone definitions ys ≤ undone definitions xs
unfolding undone
undone-le [] xs ys h = omega arith
undone-le ((k, d) ∷ definitions) xs ys h = ground (arith, h k, undone-le definitions xs ys h)

pub undone-length-le : (definitions : Definitions) → undone definitions [] ≤ length definitions
unfolding undone
undone-length-le [] = omega arith
undone-length-le ((k, d) ∷ definitions) = omega (arith, undone-length-le definitions)

-- A capability that has a definition and is new makes them fewer.
pub undone-lt :
    (definitions : Definitions) (id : String) (result : List String) (d : CapabilityDefinition)
    → lookup id definitions ≡ some d
    → contains result id ≡ false
    → undone definitions (result ++ id ∷ []) < undone definitions result
unfolding undone lookup
undone-lt [] id result d e h = absurd (cc e)
undone-lt ((k, d') ∷ definitions) id result d e h = ground (
  arith,
  e,
  h,
  undone-lt definitions id result d,
  undone-le definitions result (result ++ id ∷ [])
      (λ a g. ground (arith, g, contains-append result (id ∷ []) a)),
  contains-append result (id ∷ []) k,
)
