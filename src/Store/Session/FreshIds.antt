-- ===== src/Store/Session/FreshIds.antt =====
-- Lists of records whose events are distinct: parts of them, and a new event among them.
use private_claw.Prelude.{
  String, ◌≡◌, refl, Bool, false, List, [], ◌∷◌, ◌++◌, filter, contains, contains-append, arith,
  string_eq, Bool-cases, inl, inr,
}
use private_claw.Store.Records.{SessionRecord}
use private_claw.Store.Session.{event_ids}
use private_claw.Store.Session.Log.{HasFreshIds, HasFreshIds-cong}

HasFreshIds-weaken :
    (x : String) (s : List String) (rs : List SessionRecord)
    → HasFreshIds (x ∷ s) rs
    → HasFreshIds s rs
HasFreshIds-weaken x s [] h = tt
HasFreshIds-weaken x s (r ∷ rs) h = (
  ground (arith, h.0),
  HasFreshIds-weaken x (r.event_id ∷ s) rs
      (HasFreshIds-cong (r.event_id ∷ x ∷ s) (x ∷ r.event_id ∷ s) rs (λ a. ground arith) h.1),
)

pub HasFreshIds-filter :
    (p : SessionRecord → Bool) (s : List String) (rs : List SessionRecord)
    → HasFreshIds s rs
    → HasFreshIds s (filter p rs)
HasFreshIds-filter p s [] h = tt
HasFreshIds-filter p s (r ∷ rs) h = elim (Bool-cases (p r)) [
  | inl e ↦ rw (HasFreshIds, e) (h.0, HasFreshIds-filter p (r.event_id ∷ s) rs h.1)
  | inr e ↦
      rw (HasFreshIds, e)
        (HasFreshIds-weaken r.event_id s _ (HasFreshIds-filter p (r.event_id ∷ s) rs h.1))
]

pub event_ids-filter :
    (p : SessionRecord → Bool) (rs : List SessionRecord) (x : String)
    → contains (event_ids rs) x ≡ false
    → contains (event_ids (filter p rs)) x ≡ false
event_ids-filter p [] x h = refl
event_ids-filter p (r ∷ rs) x h =
    let ih = event_ids-filter p rs x (ground arith) in
    elim (Bool-cases (p r)) [ inl e ↦ rw e (ground arith) | inr e ↦ rw e ih ]

pub HasFreshIds-insert :
    (x : String) (s : List String) (rs : List SessionRecord)
    → contains (event_ids rs) x ≡ false
    → HasFreshIds s rs
    → HasFreshIds (x ∷ s) rs
HasFreshIds-insert x s [] f h = tt
HasFreshIds-insert x s (r ∷ rs) f h = (
  ground (arith, f, h.0),
  HasFreshIds-cong (x ∷ r.event_id ∷ s) (r.event_id ∷ x ∷ s) rs (λ a. ground arith)
      (HasFreshIds-insert x (r.event_id ∷ s) rs (ground arith) h.1),
)

pub HasFreshIds-split :
    (s : List String) (xs ys : List SessionRecord)
    → HasFreshIds s (xs ++ ys)
    → HasFreshIds s xs × HasFreshIds (event_ids xs ++ s) ys
HasFreshIds-split s [] ys h = (tt, h)
HasFreshIds-split s (x ∷ xs) ys h =
    let (a, b) = HasFreshIds-split (x.event_id ∷ s) xs ys h.1 in
    (
      (h.0, a),
      HasFreshIds-cong (event_ids xs ++ x.event_id ∷ s) (x.event_id ∷ event_ids xs ++ s) ys
          (λ a. ground (
            arith,
            contains-append (event_ids xs) (x.event_id ∷ s) a,
            contains-append (event_ids xs) s a,
          ))
          b,
    )
