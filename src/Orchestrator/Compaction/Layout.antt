-- ===== src/Orchestrator/Compaction/Layout.antt =====
-- Where the summaries of a compacted session stand, by
-- src/assistant/core/orchestrator/service.py.
use private_claw.Prelude.{
  ℕ, zero, suc, ◌-◌, ◌≤◌, String, ◌≡◌, refl, Bool, true, false, List, [], ◌∷◌, ◌++◌, filter,
  filter-none, ◌≢◌, length, drop, All, All-map, ◌||◌, contains, not, string_eq, arith, ap, sym, ◌∙◌,
  subst, Bool-cases, inl, inr,
}
use private_claw.Store.Records.{SessionRecord}
use private_claw.Store.Session.Log.{IsAscending, IsNumbered, sorted_of_IsAscending}
use private_claw.Store.Replay.{is_summary}
use private_claw.Orchestrator.Compaction.{
  is_turn_id, turn_ids_after, ordered_recent_turn_ids, is_chat,
}

-- a chat record of a turn
abbrev pub IsTurnRecord : SessionRecord → Type 0
IsTurnRecord r = (is_chat r ≡ true) × (is_turn_id r.turn_id ≡ true)

-- The summaries of earlier compactions, numbered from 0, and then the chat, without a system
-- message.
pub record Layout (records : List SessionRecord) : Type 0 where
  pub summaries : List SessionRecord
  pub chat : List SessionRecord
  pub splits : records ≡ summaries ++ chat
  pub are_summaries : All (λ r. is_summary r.record_type ≡ true) summaries
  pub numbered : IsNumbered 0 summaries
  pub are_turns : All IsTurnRecord chat
  pub ascending : IsAscending (length summaries) chat

-- an identifier that was seen does not come again
turn_ids_after-unseen :
    (seen : List String) (rs : List SessionRecord) (x : String)
    → contains seen x ≡ true
    → contains (turn_ids_after seen rs) x ≡ false
unfolding turn_ids_after
turn_ids_after-unseen seen [] x h = refl
turn_ids_after-unseen seen (r ∷ rs) x h =
    ground (arith, turn_ids_after-unseen seen rs x h, turn_ids_after-unseen (r.turn_id ∷ seen) rs x)

-- and every turn's identifier is among those that come
turn_ids_after-All :
    (seen : List String) (rs : List SessionRecord)
    → All IsTurnRecord rs
    → All (λ r. (contains seen r.turn_id || contains (turn_ids_after seen rs) r.turn_id) ≡ true) rs
unfolding turn_ids_after
turn_ids_after-All seen [] h = tt
turn_ids_after-All seen (r ∷ rs) h = elim (Bool-cases (contains seen r.turn_id)) [
  | inl old ↦ (
    ground arith,
    All-map _ _ rs (λ x e. ground (arith, e, h.0.1)) (turn_ids_after-All seen rs h.1),
  )
  | inr new ↦ (
    ground (arith, h.0.1),
    All-map _ _ rs (λ x e. ground (arith, e, h.0.1)) (turn_ids_after-All (r.turn_id ∷ seen) rs h.1),
  )
]

contains-drop :
    (n : ℕ) (xs : List String) (x : String) → contains xs x ≡ false → contains (drop n xs) x ≡ false
contains-drop zero xs x h = h
contains-drop (suc n) [] x h = refl
contains-drop (suc n) (y ∷ xs) x h = contains-drop n xs x (ground arith)

filter-IsAscending :
    (p : SessionRecord → Bool) (lo hi : ℕ) (rs : List SessionRecord)
    → lo ≤ hi
    → IsAscending hi rs
    → IsAscending lo (filter p rs)
filter-IsAscending p lo hi [] le h = tt
filter-IsAscending p lo hi (r ∷ rs) le h = elim (Bool-cases (p r)) [
  | inl e ↦ rw e (omega (arith, h.0), filter-IsAscending p _ _ rs (omega arith) h.1)
  | inr e ↦ rw e (filter-IsAscending p lo (suc r.sequence) rs (omega (arith, h.0)) h.1)
]

filter_skip :
    (p : SessionRecord → Bool) (r : SessionRecord) (rs : List SessionRecord)
    → p r ≡ false
    → filter p (r ∷ rs) ≡ filter p rs
filter_skip p r rs h = ground (arith, h)

-- The first record is summarised if any record is, so that the kept ones leave its number free.
kept-IsAscending :
    (n lo : ℕ) (chat : List SessionRecord)
    → All IsTurnRecord chat
    → IsAscending lo chat
    → let kept = drop n (turn_ids_after [] chat) in
      filter (λ r. not (contains kept r.turn_id)) chat ≢ []
      → IsAscending (suc lo) (filter (λ r. contains kept r.turn_id) chat)
unfolding turn_ids_after
kept-IsAscending zero lo chat h a older = absurd (
    older
      (filter-none _ chat (All-map _ _ chat (λ r e. ground arith) (turn_ids_after-All [] chat h))))
kept-IsAscending (suc n) lo [] h a older = absurd (older refl)
kept-IsAscending (suc n) lo (c ∷ cs) h a older =
    let later = turn_ids_after (c.turn_id ∷ []) cs in
    let first : turn_ids_after [] (c ∷ cs) ≡ c.turn_id ∷ later = ground (arith, h.0.1) in
    let gone : contains (drop (suc n) (turn_ids_after [] (c ∷ cs))) c.turn_id ≡ false =
      ap (λ l. contains (drop (suc n) l) c.turn_id) first
      ∙ contains-drop n later c.turn_id
          (turn_ids_after-unseen (c.turn_id ∷ []) cs c.turn_id (ground arith)) in
    subst (IsAscending (suc lo))
      (sym (
        filter_skip (λ r. contains (drop (suc n) (turn_ids_after [] (c ∷ cs))) r.turn_id) c cs
          gone))
      (filter-IsAscending _ (suc lo) (suc c.sequence) cs (omega (arith, a.0)) a.1)

-- the kept turns of a chat that is in order leave the number `lo` free if any record is summarised
pub recent-IsAscending :
    (keep lo : ℕ) (chat : List SessionRecord)
    → All IsTurnRecord chat
    → IsAscending lo chat
    → let kept = ordered_recent_turn_ids chat keep in
      filter (λ r. not (contains kept r.turn_id)) chat ≢ []
      → IsAscending (suc lo) (filter (λ r. contains kept r.turn_id) chat)
unfolding ordered_recent_turn_ids
recent-IsAscending keep lo chat h a =
    subst
      (λ s.
        let kept = drop (length (turn_ids_after [] s) - keep) (turn_ids_after [] s) in
        filter (λ r. not (contains kept r.turn_id)) chat ≢ []
        → IsAscending (suc lo) (filter (λ r. contains kept r.turn_id) chat))
      (sym (sorted_of_IsAscending lo chat a))
      (kept-IsAscending (length (turn_ids_after [] chat) - keep) lo chat h a)
