-- ===== src/Orchestrator/Compaction/Pass.antt =====
-- One compaction by _compact_session of src/assistant/core/orchestrator/service.py, in the store.
use mathlib.Core.List.{cons≢nil}
use private_claw.Prelude.{
  ℕ, String, ◌≡◌, ◌≢◌, refl, Option, none, some, Bool, true, false, List, [], ◌∷◌, ◌++◌, filter,
  length, contains, ◌&&◌, leb, arith, ap, sym, ◌∙◌, subst, Bool-cases, inl, inr, contains-append,
  Option-cases, append_assoc, string_eq, ◌⊎◌,
}
use private_claw.Store.Records.{SessionRecord}
use private_claw.Store.Session.{event_ids}
use private_claw.Store.Session.Log.{HasFreshIds, HasFreshIds-append, sorted_of_IsAscending}
use private_claw.Store.Session.FreshIds.{
  HasFreshIds-filter, HasFreshIds-insert, HasFreshIds-split, event_ids-filter,
}
use private_claw.Store.Interface.{SessionStore, Laws}
use private_claw.Orchestrator.Compaction.{
  CompactionConfig, NewSummary, kept_turn_ids, kept_of, summarized_of, restored, after_summary,
  compact_older, compact_session, summary_record,
}
use private_claw.Orchestrator.Compaction.Layout.{Layout}
use private_claw.Orchestrator.Compaction.Compacted.{
  latest, restored-Layout_eq, compacted-Layout, compacted-IsAscending, chat_of-Layout,
  summaries_of-Layout,
}

event_ids-append :
    (xs ys : List SessionRecord) (x : String)
    → contains (event_ids (xs ++ ys)) x ≡ false
    → (contains (event_ids xs) x ≡ false) × (contains (event_ids ys) x ≡ false)
event_ids-append [] ys x h = (refl, h)
event_ids-append (r ∷ xs) ys x h =
    let ih = event_ids-append xs ys x (ground (arith, h)) in (ground (arith, h, ih.0), ih.1)

-- A summary of a new event between distinct summaries and a part of the chat keeps events distinct.
between :
    (summaries chat : List SessionRecord) (r : SessionRecord) (p : SessionRecord → Bool)
    → HasFreshIds [] (summaries ++ chat)
    → contains (event_ids (summaries ++ chat)) r.event_id ≡ false
    → HasFreshIds [] (summaries ++ r ∷ [] ++ filter p chat)
between summaries chat r p h f =
    let (first, rest) = HasFreshIds-split [] summaries chat h in
    let (away, gone) = event_ids-append summaries chat r.event_id f in
    let kept : HasFreshIds (r.event_id ∷ event_ids summaries ++ []) (filter p chat) =
      HasFreshIds-insert r.event_id (event_ids summaries ++ []) (filter p chat)
        (event_ids-filter p chat r.event_id gone)
        (HasFreshIds-filter p (event_ids summaries ++ []) chat rest) in
    subst (HasFreshIds []) (sym (append_assoc summaries (r ∷ []) (filter p chat))) (
      HasFreshIds-append [] summaries (r ∷ filter p chat) first
        (ground (arith, away, contains-append (event_ids summaries) [] r.event_id), kept))

module _ (digits : ℕ → String) (config : CompactionConfig) {S : Type 0} (store : SessionStore S)
    {IsValid : S → Type 0} (laws : Laws store IsValid)
    (summarize : List SessionRecord → Option String) (enforce_limit : Bool) (session_id : String)
    (new : NewSummary) (s : S) (l : Layout (store.read_session session_id s)) where
  -- the records of the session before, and whether the limit forbids another compaction
  abbrev records : List SessionRecord
  records = store.read_session session_id s

  abbrev pub at_limit : Bool
  at_limit = enforce_limit && leb config.max_compactions (length l.summaries)

  -- The session was compacted.
  pub record Compacted (s' : S) : Type 0 where
    pub within : at_limit ≡ false
    pub summary : String
    pub summarized :
        summarize (summarized_of config (store.read_session session_id s)) ≡ some summary
    pub valid : IsValid s'
    pub reads :
        store.read_session session_id s'
        ≡ l.summaries
          ++ latest digits config session_id new (store.read_session session_id s) l summary ∷ []
          ++ kept_of config (store.read_session session_id s)
    pub layout : Layout (store.read_session session_id s')

  -- why it was not
  abbrev pub Reason : Type 0
  Reason =
      (at_limit ≡ true)
      ⊎ ((summarized_of config (store.read_session session_id s) ≡ [])
          ⊎ (summarize (summarized_of config (store.read_session session_id s)) ≡ none))

  abbrev pub Ends : Bool × S → Type 0
  Ends (compacted, s') =
      ((compacted ≡ false) × (s' ≡ s) × Reason) ⊎ ((compacted ≡ true) × Compacted s')

  module _ (v : IsValid s)
      (unused : contains (event_ids (store.read_session session_id s)) new.event_id ≡ false) where
    restored_fresh :
        (summary : String)
        → HasFreshIds [] (
            l.summaries
            ++ latest digits config session_id new records l summary ∷ []
            ++ kept_of config records)
    unfolding summary_record
    restored_fresh summary =
        let r = latest digits config session_id new records l summary in
        subst
          (λ c. HasFreshIds [] (
            l.summaries
            ++ r ∷ []
            ++ filter (λ x. contains (kept_turn_ids config records) x.turn_id) c))
          (sym (chat_of-Layout records l))
          (between l.summaries l.chat r _
            (subst (HasFreshIds []) l.splits (laws.distinct session_id s v))
            (subst (λ c. contains (event_ids c) new.event_id ≡ false) l.splits unused))

    compacted_lem :
        (summary : String)
        → at_limit ≡ false
        → summarized_of config records ≢ []
        → summarize (summarized_of config records) ≡ some summary
        → Compacted (
            store.replace_session session_id
              (restored digits config session_id new records summary)
              s)
    compacted_lem summary w older e =
        let out =
          l.summaries
          ++ latest digits config session_id new records l summary ∷ []
          ++ kept_of config records in
        let ascending =
          compacted-IsAscending digits config session_id new records l summary older in
        let read : store.read_session session_id (store.replace_session session_id out s) ≡ out =
          laws.replaces session_id out s ∙ sorted_of_IsAscending 0 out ascending in
        subst (λ rs. Compacted (store.replace_session session_id rs s))
          (sym (restored-Layout_eq digits config session_id new records l summary))
          (record {
            within = w;
            summary = summary;
            summarized = e;
            valid = laws.restores session_id out s v ascending (restored_fresh summary);
            reads = read;
            layout =
                subst Layout (sym read)
                  (compacted-Layout digits config session_id new records l summary older);
          })

    older_Ends :
        (older : List SessionRecord)
        → at_limit ≡ false
        → summarized_of config records ≡ older
        → Ends (compact_older digits config store summarize session_id new records older s)
    unfolding compact_older after_summary
    older_Ends [] w e = inl (refl, refl, inr (inl e))
    older_Ends (r ∷ rs) w e = elim (Option-cases (summarize (r ∷ rs))) [
      | inl failed ↦ rw failed (inl (refl, refl, inr (inr (ap summarize e ∙ failed))))
      | inr (summary, made) ↦ rw made (
          inr (
            refl,
            compacted_lem summary w (λ none_older. cons≢nil (sym e ∙ none_older))
                (ap summarize e ∙ made),
          ))
    ]

    -- Of a session whose log is summaries numbered from 0 and then the records of turns, and a new
    -- event: either the compaction changes nothing and says so, because the limit was reached and is
    -- enforced, there is no record outside the turns to keep, or the summariser raised; or it says
    -- that it compacted, and the log is now the summaries, one more with the next number, and the
    -- records of the kept turns as they were. Such a log satisfies the store's invariant and can be
    -- compacted again.
    pub compact_session_lem : Ends (
        compact_session digits config store summarize enforce_limit session_id new
          (store.read_session session_id s)
          s)
    unfolding compact_session
    compact_session_lem =
        let same =
          ap (λ x. enforce_limit && leb config.max_compactions (length x))
            (summaries_of-Layout records l) in
        elim (Bool-cases at_limit) [
          | inl reached ↦ rw (same ∙ reached) (inl (refl, refl, inl reached))
          | inr below ↦ rw (same ∙ below) (older_Ends (summarized_of config records) below refl)
        ]
