-- ===== src/Store/Replay/Order.antt =====
-- A replay does not depend on the order in which the records come:
-- src/assistant/store/filesystem/replay.py.
use mathlib.Core.List.{Permᴰ}
use private_claw.Prelude.{
  ℕ, ◌≡◌, ◌≢◌, zero, suc, subst, ◌++◌, refl, sym, ◌∙◌, ap, List, [], ◌∷◌, All, arith,
}
use private_claw.Store.Records.{SessionRecord}
use private_claw.Store.Session.{insert_sorted, sorted}
use private_claw.Store.Replay.{
  build_replay, preamble, extend, drop_oldest, turn_slots, with_system, with_summaries, find_latest,
  collect_compaction_summaries, collect_complete_turns,
}

insert_sorted_comm :
    (x y : SessionRecord) (l : List SessionRecord)
    → x.sequence ≢ y.sequence
    → insert_sorted x (insert_sorted y l) ≡ insert_sorted y (insert_sorted x l)
unfolding insert_sorted
insert_sorted_comm x y [] h = ground arith
insert_sorted_comm x y (z ∷ l) h = ground (arith, insert_sorted_comm x y l h)

abbrev Differ : SessionRecord → SessionRecord → Type 0
Differ x y = x.sequence ≢ y.sequence

-- No two records have one sequence number.
abbrev pub HasDistinctNumbers : List SessionRecord → Type 0
HasDistinctNumbers [] = Unit
HasDistinctNumbers (r ∷ rs) = All (Differ r) rs × HasDistinctNumbers rs

All-Differ-perm :
    (x : SessionRecord) {xs ys : List SessionRecord}
    → Permᴰ xs ys
    → All (Differ x) xs
    → All (Differ x) ys
All-Differ-perm x Permᴰ.nil h = tt
All-Differ-perm x (Permᴰ.cons e p) h = (subst (Differ x) e h.0, All-Differ-perm x p h.1)
All-Differ-perm x (Permᴰ.swap e f) h = (subst (Differ x) f h.1.0, (subst (Differ x) e h.0, h.1.1))
All-Differ-perm x (Permᴰ.trans p q) h = All-Differ-perm x q (All-Differ-perm x p h)

HasDistinctNumbers-perm :
    {xs ys : List SessionRecord} → Permᴰ xs ys → HasDistinctNumbers xs → HasDistinctNumbers ys
HasDistinctNumbers-perm Permᴰ.nil h = tt
HasDistinctNumbers-perm (Permᴰ.cons {a = a} {l₂ = ys} e p) h =
    (subst (λ x. All (Differ x) ys) e (All-Differ-perm a p h.0), HasDistinctNumbers-perm p h.1)
HasDistinctNumbers-perm (Permᴰ.swap {a = a} {b = b} {b' = b'} {l = l} e f) h =
    let swapped : HasDistinctNumbers (b ∷ a ∷ l) =
      (((λ q. h.0.0 (sym q)), h.1.0), (h.0.1, h.1.1)) in
    subst (λ x. HasDistinctNumbers (x ∷ b' ∷ l)) f
      (subst (λ x. HasDistinctNumbers (b ∷ x ∷ l)) e swapped)
HasDistinctNumbers-perm (Permᴰ.trans p q) h =
    HasDistinctNumbers-perm q (HasDistinctNumbers-perm p h)

-- Sorting by distinct numbers forgets the order.
pub sorted-perm :
    {xs ys : List SessionRecord} → Permᴰ xs ys → HasDistinctNumbers xs → sorted xs ≡ sorted ys
unfolding sorted
sorted-perm Permᴰ.nil h = refl
sorted-perm (Permᴰ.cons {l₁ = xs} {l₂ = ys} e p) h = cc (e, sorted-perm p h.1)
sorted-perm (Permᴰ.swap {a = a} {b = b} {l = l} e f) h =
    cc (e, f, insert_sorted_comm a b (sorted l) h.0.0)
sorted-perm (Permᴰ.trans p q) h = sorted-perm p h ∙ sorted-perm q (HasDistinctNumbers-perm p h)

replay_of : List SessionRecord → ℕ → List SessionRecord
replay_of ordered budget =
    let (before, remaining) = preamble ordered budget in
    before ++ extend (drop_oldest remaining (turn_slots ordered))

build_replay-replay_of :
    (rs : List SessionRecord) (budget : ℕ) → build_replay rs budget ≡ replay_of (sorted rs) budget
unfolding build_replay replay_of sorted preamble extend drop_oldest turn_slots with_system
    with_summaries find_latest collect_compaction_summaries collect_complete_turns
build_replay-replay_of [] zero = refl
build_replay-replay_of [] (suc n) = refl
build_replay-replay_of (r ∷ rs) budget = refl

-- The replay of records with distinct sequence numbers does not depend on their order.
pub build_replay-perm :
    {xs ys : List SessionRecord} (budget : ℕ)
    → Permᴰ xs ys
    → HasDistinctNumbers xs
    → build_replay xs budget ≡ build_replay ys budget
build_replay-perm {xs} {ys} budget p h =
    build_replay-replay_of xs budget
    ∙ ap (λ l. replay_of l budget) (sorted-perm p h)
    ∙ sym (build_replay-replay_of ys budget)
