-- ===== src/Store/Session/Firsts.antt =====
-- Which records of a batch the session store of src/assistant/store/filesystem/session.py writes,
-- said without its loop.
use private_claw.Prelude.{
  ℕ, suc, String, ◌≡◌, refl, true, List, [], ◌∷◌, filter, contains, not, ◌==◌, string_eq, arith, ap,
  ◌∙◌, Bool-cases, inl, inr,
}
use private_claw.Store.Records.{SessionRecord}
use private_claw.Store.Session.{new_records}
use private_claw.Store.Session.Append.{new_records_known, new_records_unknown}

-- the first record of each event, in order
abbrev pub first_of_each : List SessionRecord → List SessionRecord
first_of_each [] = []
first_of_each (r ∷ rs) = r ∷ filter (λ x. not (x.event_id == r.event_id)) (first_of_each rs)

-- the records numbered on from `n`
abbrev pub numbered : ℕ → List SessionRecord → List SessionRecord
numbered n [] = []
numbered n (r ∷ rs) = record r { sequence = n } ∷ numbered (suc n) rs

-- of the first record of each event those whose event is not among `seen`
abbrev pub additions : List String → List SessionRecord → List SessionRecord
additions seen rs = filter (λ x. not (contains seen x.event_id)) (first_of_each rs)

filter-known :
    (seen : List String) (id : String) (rs : List SessionRecord)
    → contains seen id ≡ true
    → filter (λ x. not (contains seen x.event_id)) (filter (λ x. not (x.event_id == id)) rs)
      ≡ filter (λ x. not (contains seen x.event_id)) rs
filter-known seen id [] h = refl
filter-known seen id (x ∷ rs) h = ground (arith, h, filter-known seen id rs h)

filter-unknown :
    (seen : List String) (id : String) (rs : List SessionRecord)
    → filter (λ x. not (contains seen x.event_id)) (filter (λ x. not (x.event_id == id)) rs)
      ≡ filter (λ x. not (contains (id ∷ seen) x.event_id)) rs
filter-unknown seen id [] = refl
filter-unknown seen id (x ∷ rs) = ground (arith, filter-unknown seen id rs)

pub new_records_lem :
    (seen : List String) (n : ℕ) (rs : List SessionRecord)
    → new_records seen n rs ≡ numbered n (additions seen rs)
unfolding new_records
new_records_lem seen n [] = refl
new_records_lem seen n (r ∷ rs) = elim (Bool-cases (contains seen r.event_id)) [
  | inl known ↦
      new_records_known seen n r rs known
      ∙ new_records_lem seen n rs
      ∙ rw (known, filter-known seen r.event_id (first_of_each rs) known) refl
  | inr fresh ↦
      new_records_unknown seen n r rs fresh
      ∙ ap (◌∷◌ (record r { sequence = n })) (new_records_lem (r.event_id ∷ seen) (suc n) rs)
      ∙ rw (fresh, filter-unknown seen r.event_id (first_of_each rs)) refl
]
