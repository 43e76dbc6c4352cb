-- ===== src/Store/Replay/Budget.antt =====
-- How build_replay of src/assistant/store/filesystem/replay.py spends its budget.
use private_claw.Prelude.{
  ℕ, zero, suc, ◌+◌, ◌≤◌, ◌<◌, ◌≡◌, refl, Option, none, some, List, [], ◌∷◌, ◌++◌, length,
  length-append, drop, take, filter, ap, ◌∙◌, subst, ◌-◌, arith, Bool-cases, inl, inr, ltb, ltb→lt,
}
use private_claw.Store.Records.{SessionRecord}
use private_claw.Store.Session.{sorted}
use private_claw.Store.Replay.{
  is_session_system, is_summary, find_latest, collect_compaction_summaries, with_system,
  with_summaries, preamble, total, extend, drop_oldest, turn_slots, build_replay,
}

with_system_cost :
    (o : Option SessionRecord) (budget : ℕ)
    → length (with_system o budget).0 + (with_system o budget).1 ≡ budget
unfolding with_system
with_system_cost (some r) (suc budget) = omega arith
with_system_cost none budget = omega arith
with_system_cost _ _ = omega arith

with_summaries_cost :
    (rs : List SessionRecord) (remaining : ℕ)
    → length (with_summaries rs remaining).0 + (with_summaries rs remaining).1 ≡ remaining
unfolding with_summaries
with_summaries_cost [] remaining = omega arith
with_summaries_cost (r ∷ rs) zero = with_summaries_cost rs zero
with_summaries_cost (r ∷ rs) (suc remaining) = omega (arith, with_summaries_cost rs remaining)

preamble_cost :
    (ordered : List SessionRecord) (budget : ℕ)
    → length (preamble ordered budget).0 + (preamble ordered budget).1 ≡ budget
unfolding preamble
preamble_cost ordered budget =
    let o = find_latest none ordered in
    let (system, after_system) = with_system o budget in
    let s = collect_compaction_summaries ordered in
    omega (
      arith,
      with_system_cost o budget,
      with_summaries_cost s after_system,
      length-append system (with_summaries s after_system).0,
    )

length-extend : (slots : List (List SessionRecord)) → length (extend slots) ≡ total slots
unfolding extend total
length-extend [] = refl
length-extend (slot ∷ slots) = omega (arith, length-append slot (extend slots), length-extend slots)

-- The turns that stay fit, and no longer suffix of the turns does.
pub record IsLongestFit (remaining : ℕ) (slots kept : List (List SessionRecord)) : Type 0 where
  pub dropped : ℕ
  pub suffix : kept ≡ drop dropped slots
  pub fits : total kept ≤ remaining
  pub longest : (n : ℕ) → n < dropped → remaining < total (drop n slots)

IsLongestFit-cons :
    {remaining : ℕ} {slots kept : List (List SessionRecord)} (slot : List SessionRecord)
    → remaining < total (slot ∷ slots)
    → IsLongestFit remaining slots kept
    → IsLongestFit remaining (slot ∷ slots) kept
IsLongestFit-cons {remaining} {slots} {kept} slot over h = record {
  dropped = suc h.dropped;
  suffix = h.suffix;
  fits = h.fits;
  longest = longer;
}
  where
    longer : (n : ℕ) → n < suc h.dropped → remaining < total (drop n (slot ∷ slots))
    longer zero _ = over
    longer (suc n) below = h.longest n (omega arith)

drop_oldest_fit :
    (remaining : ℕ) (slots : List (List SessionRecord))
    → IsLongestFit remaining slots (drop_oldest remaining slots)
unfolding drop_oldest
drop_oldest_fit remaining [] = record {
  dropped = 0;
  suffix = refl;
  fits = unfold total in omega arith;
  longest = λ n h. absurd (omega arith);
}
drop_oldest_fit remaining (slot ∷ slots) =
    elim (Bool-cases (ltb remaining (total (slot ∷ slots)))) [
      | inl over ↦
          rw over (IsLongestFit-cons slot (ltb→lt _ _ over) (drop_oldest_fit remaining slots))
      | inr fits ↦ rw fits (record {
        dropped = 0;
        suffix = refl;
        fits = ground arith;
        longest = λ n h. absurd (omega arith);
      })
    ]

-- The replay of any records has at most `budget` records.
pub length-build_replay-le :
    (records : List SessionRecord) (budget : ℕ) → length (build_replay records budget) ≤ budget
unfolding build_replay
length-build_replay-le [] budget = omega arith
length-build_replay-le (r ∷ rs) budget =
    let ordered = sorted (r ∷ rs) in
    let (before, remaining) = preamble ordered budget in
    let kept = drop_oldest remaining (turn_slots ordered) in
    omega (
      arith,
      preamble_cost ordered budget,
      length-append before (extend kept),
      length-extend kept,
      (drop_oldest_fit remaining (turn_slots ordered)).fits,
    )

abbrev of_option : Option SessionRecord → List SessionRecord
of_option none = []
of_option (some r) = r ∷ []

abbrev last_or : Option SessionRecord → List SessionRecord → Option SessionRecord
last_or o [] = o
last_or o (r ∷ rs) = last_or (some r) rs

-- the last element, if there is one
abbrev last_only : List SessionRecord → List SessionRecord
last_only rs = of_option (last_or none rs)

take-zero : (rs : List SessionRecord) → take 0 rs ≡ []
take-zero rs = refl

-- the newest of the session's system messages, by the order of a list
abbrev pub newest_system : List SessionRecord → List SessionRecord
newest_system ordered = last_only (filter is_session_system ordered)

find_latest_lem :
    (latest : Option SessionRecord) (rs : List SessionRecord)
    → find_latest latest rs ≡ last_or latest (filter is_session_system rs)
unfolding find_latest
find_latest_lem latest [] = refl
find_latest_lem latest (r ∷ rs) = elim (Bool-cases (is_session_system r)) [
  | inl e ↦ rw e (find_latest_lem (some r) rs)
  | inr e ↦ rw e (find_latest_lem latest rs)
]

with_summaries_lem : (rs : List SessionRecord) (n : ℕ) → (with_summaries rs n).0 ≡ take n rs
unfolding with_summaries
with_summaries_lem [] zero = refl
with_summaries_lem [] (suc n) = refl
with_summaries_lem (r ∷ rs) zero = with_summaries_lem rs zero ∙ take-zero rs
with_summaries_lem (r ∷ rs) (suc n) = ap (◌∷◌ r) (with_summaries_lem rs n)

with_system_lem :
    (o : Option SessionRecord) (summaries : List SessionRecord) (budget : ℕ)
    → (with_system o budget).0 ++ (with_summaries summaries (with_system o budget).1).0
      ≡ take budget (of_option o ++ summaries)
unfolding with_system
with_system_lem none summaries budget = with_summaries_lem summaries budget
with_system_lem (some r) summaries zero = with_summaries_lem summaries zero
with_system_lem (some r) summaries (suc n) = ap (◌∷◌ r) (with_summaries_lem summaries n)

preamble_lem :
    (ordered : List SessionRecord) (budget : ℕ)
    → (preamble ordered budget).0
      ≡ take budget (newest_system ordered ++ filter (λ r. is_summary r.record_type) ordered)
unfolding preamble collect_compaction_summaries
preamble_lem ordered budget =
    with_system_lem (find_latest none ordered) (filter (λ r. is_summary r.record_type) ordered)
      budget
    ∙ ap
        (λ (o : Option SessionRecord).
          take budget (of_option o ++ filter (λ r. is_summary r.record_type) ordered))
        (find_latest_lem none ordered)

-- The replay is as much as the budget takes of the newest system message of the session and then
-- all compaction summaries, in the order of their sequence, and after these the longest run of the
-- newest complete turns that fits in what they leave of the budget. No turn is cut.
pub build_replay_lem :
    (r : SessionRecord) (rs : List SessionRecord) (budget : ℕ)
    → let ordered = sorted (r ∷ rs) in
      let before =
        take budget (newest_system ordered ++ filter (λ x. is_summary x.record_type) ordered) in
      (kept : List (List SessionRecord)) × (build_replay (r ∷ rs) budget ≡ before ++ extend kept)
      × IsLongestFit (budget - length before) (turn_slots ordered) kept
unfolding build_replay
build_replay_lem r rs budget =
    let ordered = sorted (r ∷ rs) in
    let (before, remaining) = preamble ordered budget in
    let same = preamble_lem ordered budget in
    let left : remaining ≡ budget - length before = omega (arith, preamble_cost ordered budget) in
    (
      drop_oldest remaining (turn_slots ordered),
      ap (λ l. l ++ extend (drop_oldest remaining (turn_slots ordered))) same,
      subst (λ n. IsLongestFit n (turn_slots ordered) (drop_oldest remaining (turn_slots ordered)))
          (left ∙ ap (λ l. budget - length l) same)
          (drop_oldest_fit remaining (turn_slots ordered)),
    )
