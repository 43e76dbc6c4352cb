-- ===== src/Orchestrator/Batch.antt =====
-- What appending the records of one turn does to its session.
use private_claw.Prelude.{
  ℕ, suc, String, ◌≡◌, ◌≢◌, refl, true, false, List, [], ◌∷◌, ◌++◌, All, All-map, All-append,
  contains, arith, string_eq, ap, sym, ◌∙◌, subst, Bool-cases, inl, inr, append_assoc,
  contains-append,
}
use private_claw.Store.Records.{SessionRecord}
use private_claw.Store.Session.Firsts.{new_records_lem}
use private_claw.Store.Session.{done, next_after, same_session, new_records, event_ids}
use private_claw.Store.Session.Append.{new_records_known, new_records_unknown}
use private_claw.Store.Interface.{SessionStore, Laws}
use private_claw.Store.Replay.{is_terminal}
use private_claw.Orchestrator.Persistence.{
  TurnIds, TurnTerminalStatus, terminal_id, terminal_record,
}

-- a record of the turn that is not its terminal record
pub record BelongsTo (ids : TurnIds) (r : SessionRecord) : Type 0 where
  pub of_session : r.session_id ≡ ids.session_id
  pub of_turn : r.turn_id ≡ ids.turn_id
  pub other_event : r.event_id ≢ terminal_id ids
  pub not_terminal : is_terminal r.record_type ≡ false

pub new_records-BelongsTo :
    (ids : TurnIds) (seen : List String) (n : ℕ) (rs : List SessionRecord)
    → All (BelongsTo ids) rs
    → All (BelongsTo ids) (new_records seen n rs)
unfolding new_records
new_records-BelongsTo ids seen n [] h = tt
new_records-BelongsTo ids seen n (r ∷ rs) h = elim (Bool-cases (contains seen r.event_id)) [
  | inl e ↦
      subst (All (BelongsTo ids)) (sym (new_records_known seen n r rs e))
        (new_records-BelongsTo ids seen n rs h.1)
  | inr e ↦ subst (All (BelongsTo ids)) (sym (new_records_unknown seen n r rs e)) (
    record {
      of_session = h.0.of_session;
      of_turn = h.0.of_turn;
      other_event = h.0.other_event;
      not_terminal = h.0.not_terminal;
    },
    new_records-BelongsTo ids (r.event_id ∷ seen) (suc n) rs h.1,
  )
]

-- An event that is new and stands last is written last.
new_records_last :
    (ids : TurnIds) (seen : List String) (n : ℕ) (rs : List SessionRecord) (t : SessionRecord)
    → t.event_id ≡ terminal_id ids
    → contains seen (terminal_id ids) ≡ false
    → All (BelongsTo ids) rs
    → (k : ℕ) × (new_records seen n (rs ++ t ∷ [])
        ≡ new_records seen n rs ++ record t { sequence = k } ∷ [])
unfolding new_records
new_records_last ids seen n [] t e f h =
    (n, new_records_unknown seen n t [] (ap (contains seen) e ∙ f))
new_records_last ids seen n (r ∷ rs) t e f h = elim (Bool-cases (contains seen r.event_id)) [
  | inl known ↦
      let (k, ih) = new_records_last ids seen n rs t e f h.1 in
      (
        k,
        new_records_known seen n r (rs ++ t ∷ []) known
            ∙ ih
            ∙ ap (λ l. l ++ record t { sequence = k } ∷ [])
                (sym (new_records_known seen n r rs known)),
      )
  | inr new ↦
      let other = h.0.other_event in
      let (k, ih) =
        new_records_last ids (r.event_id ∷ seen) (suc n) rs t e (ground (arith, f)) h.1 in
      (
        k,
        new_records_unknown seen n r (rs ++ t ∷ []) new
            ∙ ap (◌∷◌ (record r { sequence = n })) ih
            ∙ ap (λ l. l ++ record t { sequence = k } ∷ [])
                (sym (new_records_unknown seen n r rs new)),
      )
]

-- the records that a turn adds before its terminal record leave that event new
other_events :
    (ids : TurnIds) (rs : List SessionRecord)
    → All (BelongsTo ids) rs
    → contains (event_ids rs) (terminal_id ids) ≡ false
other_events ids [] h = refl
other_events ids (r ∷ rs) h =
    let other = h.0.other_event in let ih = other_events ids rs h.1 in ground arith

same_session_of :
    (ids : TurnIds) (rs : List SessionRecord)
    → All (λ r. r.session_id ≡ ids.session_id) rs
    → same_session ids.session_id rs ≡ true
unfolding same_session
same_session_of ids [] h = refl
same_session_of ids (r ∷ rs) h = let ih = same_session_of ids rs h.1 in let e = h.0 in ground arith

module _ {S : Type 0} (store : SessionStore S) {IsValid : S → Type 0} (laws : Laws store IsValid)
    (ids : TurnIds) where
  -- the terminal event of the turn is not on file
  pub record IsOpen (s : S) : Type 0 where
    pub valid : IsValid s
    pub unended :
        contains (event_ids (store.read_session ids.session_id s)) (terminal_id ids) ≡ false

  -- what a batch adds to the session
  abbrev pub added : List SessionRecord → S → List SessionRecord
  added rs s =
      let existing = store.read_session ids.session_id s in
      new_records (event_ids existing) (next_after existing) rs

  grown :
      (r : SessionRecord) (rs : List SessionRecord) (s : S)
      → IsValid s
      → All (λ r. r.session_id ≡ ids.session_id) (r ∷ rs)
      → ((store.append (r ∷ rs) s).0 ≡ done)
        × IsValid (store.append (r ∷ rs) s).1
        × (store.read_session ids.session_id (store.append (r ∷ rs) s).1
            ≡ store.read_session ids.session_id s ++ added (r ∷ rs) s)
  grown r rs s v h =
      let same : same_session r.session_id rs ≡ true =
        ap (λ k. same_session k rs) h.0 ∙ same_session_of ids rs h.1 in
      (
        laws.accepts r rs s same,
        laws.keeps (r ∷ rs) s v,
        subst
            (λ k.
              store.read_session k (store.append (r ∷ rs) s).1
              ≡ store.read_session k s
                ++ (let existing = store.read_session k s in
                    new_records (event_ids existing) (next_after existing) (r ∷ rs)))
            h.0
            (laws.grows r rs s v same
              ∙ ap (λ l. store.read_session r.session_id s ++ l)
                  (sym (
                    new_records_lem (event_ids (store.read_session r.session_id s))
                      (next_after (store.read_session r.session_id s)) (r ∷ rs)))),
      )

  grown_any :
      (before : List SessionRecord) (n : ℕ) (status : TurnTerminalStatus) (s : S)
      → IsValid s
      → All (λ r. r.session_id ≡ ids.session_id) (before ++ terminal_record ids n status ∷ [])
      → let rs = before ++ terminal_record ids n status ∷ [] in
        ((store.append rs s).0 ≡ done)
        × IsValid (store.append rs s).1
        × (store.read_session ids.session_id (store.append rs s).1
            ≡ store.read_session ids.session_id s ++ added rs s)
  grown_any [] n status s v h = grown (terminal_record ids n status) [] s v h
  grown_any (r ∷ rs) n status s v h = grown r (rs ++ terminal_record ids n status ∷ []) s v h

  -- The session was `old` and is now that, more records of the turn, and its terminal record.
  pub record Ends (old : List SessionRecord) (status : TurnTerminalStatus) (s : S) : Type 0 where
    pub before : List SessionRecord
    pub sequence : ℕ
    pub of_turn : All (BelongsTo ids) before
    pub now_valid : IsValid s
    pub reads :
        store.read_session ids.session_id s
        ≡ old ++ (before ++ terminal_record ids sequence status ∷ [])

  -- The session was `old` and is now that and more records of the turn, which is still open.
  pub record Grows (old : List SessionRecord) (s : S) : Type 0 where
    pub new : List SessionRecord
    pub of_turn : All (BelongsTo ids) new
    pub still_open : IsOpen s
    pub reads : store.read_session ids.session_id s ≡ old ++ new

  event_ids-append :
      (xs ys : List SessionRecord) → event_ids (xs ++ ys) ≡ event_ids xs ++ event_ids ys
  event_ids-append [] ys = refl
  event_ids-append (x ∷ xs) ys = ap (◌∷◌ x.event_id) (event_ids-append xs ys)

  pub batch-Grows :
      (r : SessionRecord) (rs : List SessionRecord) (s : S)
      → IsOpen s
      → All (BelongsTo ids) (r ∷ rs)
      → ((store.append (r ∷ rs) s).0 ≡ done)
        × Grows (store.read_session ids.session_id s) (store.append (r ∷ rs) s).1
  batch-Grows r rs s o h =
      let old = store.read_session ids.session_id s in
      let new = added (r ∷ rs) s in
      let belong = new_records-BelongsTo ids (event_ids old) (next_after old) (r ∷ rs) h in
      let (accepted, valid, reads) =
        grown r rs s o.valid (All-map _ _ (r ∷ rs) (λ x b. b.of_session) h) in
      (
        accepted,
        record {
          new = new;
          of_turn = belong;
          still_open = record {
            valid = valid;
            unended =
                ap (λ l. contains (event_ids l) (terminal_id ids)) reads
                ∙ ap (λ l. contains l (terminal_id ids)) (event_ids-append old new)
                ∙ contains-append (event_ids old) (event_ids new) (terminal_id ids)
                ∙ ground (arith, o.unended, other_events ids new belong);
          };
          reads = reads;
        },
      )

  ending :
      (before : List SessionRecord) (n : ℕ) (status : TurnTerminalStatus)
      → All (BelongsTo ids) before
      → All (λ r. r.session_id ≡ ids.session_id) (before ++ terminal_record ids n status ∷ [])
  unfolding terminal_record
  ending [] n status h = (refl, tt)
  ending (r ∷ rs) n status h = (h.0.of_session, ending rs n status h.1)

  -- the batch of a turn's end
  pub batch-Ends :
      (before : List SessionRecord) (n : ℕ) (status : TurnTerminalStatus) (s : S)
      → IsOpen s
      → All (BelongsTo ids) before
      → ((store.append (before ++ terminal_record ids n status ∷ []) s).0 ≡ done)
        × Ends
            (store.read_session ids.session_id s)
            status
            (store.append (before ++ terminal_record ids n status ∷ []) s).1
  unfolding terminal_record
  batch-Ends before n status s o h =
      let old = store.read_session ids.session_id s in
      let (k, last) =
        new_records_last ids (event_ids old) (next_after old) before (terminal_record ids n status)
          refl o.unended h in
      let (accepted, valid, reads) =
        grown_any before n status s o.valid (ending before n status h) in
      (
        accepted,
        record {
          before = new_records (event_ids old) (next_after old) before;
          sequence = k;
          of_turn = new_records-BelongsTo ids (event_ids old) (next_after old) before h;
          now_valid = valid;
          reads = reads ∙ ap (λ l. old ++ l) last;
        },
      )

  pub Ends-Grows :
      (old : List SessionRecord) (status : TurnTerminalStatus) (s s' : S) (g : Grows old s)
      → Ends (store.read_session ids.session_id s) status s'
      → Ends old status s'
  Ends-Grows old status s s' g e = record {
    before = g.new ++ e.before;
    sequence = e.sequence;
    of_turn = All-append (BelongsTo ids) g.new e.before g.of_turn e.of_turn;
    now_valid = e.now_valid;
    reads =
        let last = terminal_record ids e.sequence status ∷ [] in
        e.reads
        ∙ ap (λ l. l ++ (e.before ++ last)) g.reads
        ∙ append_assoc old g.new (e.before ++ last)
        ∙ ap (λ l. old ++ l) (sym (append_assoc g.new e.before last));
  }
