-- ===== src/Orchestrator/Compaction/Compacted.antt =====
-- What a compaction by src/assistant/core/orchestrator/service.py leaves in the log.
use private_claw.Prelude.{
  ℕ, suc, ◌+◌, String, ◌≡◌, ◌≢◌, refl, true, false, List, [], ◌∷◌, ◌++◌, filter, length, All,
  All-map, All-append, contains, not, string_eq, arith, ap, sym, ◌∙◌, subst, filter-append,
  filter-All, filter-none, append-nil, length-append, All-filter,
}
use mathlib.Core.Bool.{false≢true}
use private_claw.Store.Records.{SessionRecord, SessionRecordType, system_message}
use private_claw.Store.Session.Log.{IsAscending, IsNumbered}
use private_claw.Store.Replay.{is_summary, is_system}
use private_claw.Orchestrator.Compaction.{
  CompactionConfig, ordered_recent_turn_ids, is_chat, chat_of, summaries_of, system_of, kept_of,
  summarized_of, NewSummary, summary_record, restored,
}
use private_claw.Orchestrator.Compaction.Layout.{Layout, IsTurnRecord, recent-IsAscending}

summary-not_system : (t : SessionRecordType) → is_summary t ≡ true → is_system t ≡ false
summary-not_system system_message h = absurd (false≢true h)
summary-not_system _ h = refl

chat-not_summary :
    (r : SessionRecord)
    → is_chat r ≡ true
    → (is_summary r.record_type ≡ false) × (is_system r.record_type ≡ false)
chat-not_summary r h = (ground arith, ground arith)

module _ (records : List SessionRecord) (l : Layout records) where
  pub summaries_of-Layout : summaries_of records ≡ l.summaries
  summaries_of-Layout =
      ap summaries_of l.splits
      ∙ filter-append _ l.summaries l.chat
      ∙ ap (λ s. s ++ summaries_of l.chat) (filter-All _ l.summaries l.are_summaries)
      ∙ ap (λ s. l.summaries ++ s)
          (filter-none _ l.chat
            (All-map _ _ l.chat (λ r h. (chat-not_summary r h.0).0) l.are_turns))
      ∙ append-nil l.summaries

  pub system_of-Layout : system_of records ≡ []
  system_of-Layout =
      ap system_of l.splits
      ∙ filter-append _ l.summaries l.chat
      ∙ ap (λ s. s ++ system_of l.chat)
          (filter-none _ l.summaries
            (All-map _ _ l.summaries (λ r h. summary-not_system r.record_type h) l.are_summaries))
      ∙ filter-none _ l.chat (All-map _ _ l.chat (λ r h. (chat-not_summary r h.0).1) l.are_turns)

  pub chat_of-Layout : chat_of records ≡ l.chat
  chat_of-Layout =
      ap chat_of l.splits
      ∙ filter-append _ l.summaries l.chat
      ∙ ap (λ s. s ++ chat_of l.chat)
          (filter-none _ l.summaries
            (All-map _ _ l.summaries (λ r h. ground (arith, h)) l.are_summaries))
      ∙ filter-All _ l.chat (All-map _ _ l.chat (λ r h. h.0) l.are_turns)

IsNumbered-snoc :
    (n : ℕ) (rs : List SessionRecord) (r : SessionRecord)
    → IsNumbered n rs
    → r.sequence ≡ n + length rs
    → IsNumbered n (rs ++ r ∷ [])
IsNumbered-snoc n [] r h e = (omega (arith, e), tt)
IsNumbered-snoc n (x ∷ rs) r h e = (h.0, IsNumbered-snoc (suc n) rs r h.1 (omega (arith, e)))

-- numbered records, and then others with greater numbers, ascend
IsNumbered-append-IsAscending :
    (n : ℕ) (xs ys : List SessionRecord)
    → IsNumbered n xs
    → IsAscending (n + length xs) ys
    → IsAscending n (xs ++ ys)
IsNumbered-append-IsAscending n [] ys h a = subst (λ k. IsAscending k ys) (omega arith) a
IsNumbered-append-IsAscending n (x ∷ xs) ys h a = (
  omega (arith, h.0),
  subst (λ k. IsAscending (suc k) (xs ++ ys)) (sym h.0)
      (IsNumbered-append-IsAscending (suc n) xs ys h.1
        (subst (λ k. IsAscending k ys) (omega arith) a)),
)

module _ (digits : ℕ → String) (config : CompactionConfig) (session_id : String) (new : NewSummary)
    (records : List SessionRecord) (l : Layout records) (summary : String) where
  -- the record of this compaction
  abbrev pub latest : SessionRecord
  latest =
      summary_record digits session_id new (length l.summaries) (length l.summaries + 1) summary

  pub restored-Layout_eq :
      restored digits config session_id new records summary
      ≡ l.summaries ++ latest ∷ [] ++ kept_of config records
  unfolding restored
  restored-Layout_eq =
      ap
        (λ sys.
          sys
          ++ summaries_of records
          ++ summary_record digits session_id new (length sys + length (summaries_of records))
              (length (summaries_of records) + 1) summary
            ∷ []
          ++ kept_of config records)
        (system_of-Layout records l)
      ∙ ap
          (λ prev.
            prev
            ++ summary_record digits session_id new (0 + length prev) (length prev + 1) summary ∷ []
            ++ kept_of config records)
          (summaries_of-Layout records l)
      ∙ ap
          (λ k.
            l.summaries
            ++ summary_record digits session_id new k (length l.summaries + 1) summary ∷ []
            ++ kept_of config records)
          (omega arith)

  -- what is kept stands above the summaries, with room for the new one
  kept_above :
      summarized_of config records ≢ []
      → IsAscending (suc (length l.summaries)) (kept_of config records)
  kept_above =
      subst
        (λ c.
          let kept = ordered_recent_turn_ids c config.keep_recent_turns in
          filter (λ r. not (contains kept r.turn_id)) c ≢ []
          → IsAscending (suc (length l.summaries)) (filter (λ r. contains kept r.turn_id) c))
        (sym (chat_of-Layout records l))
        (recent-IsAscending config.keep_recent_turns (length l.summaries) l.chat l.are_turns
          l.ascending)

  kept_turns : All IsTurnRecord (kept_of config records)
  kept_turns =
      All-map _ IsTurnRecord _ (λ r h. h.1)
        (All-filter IsTurnRecord _ (chat_of records)
          (subst (All IsTurnRecord) (sym (chat_of-Layout records l)) l.are_turns))

  IsNumbered-after : IsNumbered 0 (l.summaries ++ latest ∷ [])
  unfolding summary_record
  IsNumbered-after = IsNumbered-snoc 0 l.summaries latest l.numbered (omega arith)

  -- a compaction leaves the layout
  pub compacted-Layout :
      summarized_of config records ≢ []
      → Layout (l.summaries ++ latest ∷ [] ++ kept_of config records)
  unfolding summary_record
  compacted-Layout older = record {
    summaries = l.summaries ++ latest ∷ [];
    chat = kept_of config records;
    splits = refl;
    are_summaries =
        All-append (λ r. is_summary r.record_type ≡ true) l.summaries (latest ∷ []) l.are_summaries
          (refl, tt);
    numbered = IsNumbered-after;
    are_turns = kept_turns;
    ascending =
        subst (λ k. IsAscending k (kept_of config records))
          (omega (arith, length-append l.summaries (latest ∷ []))) (kept_above older);
  }

  pub compacted-IsAscending :
      summarized_of config records ≢ []
      → IsAscending 0 (l.summaries ++ latest ∷ [] ++ kept_of config records)
  compacted-IsAscending older =
      IsNumbered-append-IsAscending 0 (l.summaries ++ latest ∷ []) (kept_of config records)
        IsNumbered-after
        (subst (λ k. IsAscending k (kept_of config records))
          (omega (arith, length-append l.summaries (latest ∷ []))) (kept_above older))
