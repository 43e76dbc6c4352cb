-- ===== src/Store/Replay/Turns.antt =====
-- Which records a replay holds: src/assistant/store/filesystem/replay.py.
use private_claw.Prelude.{
  String, ◌≡◌, refl, true, List, [], ◌∷◌, ◌++◌, map, filter, All, All-map, All-filter, All-append,
  length-append, arith, ◌==◌, if◌then◌else◌, ◌⊎◌, length, ◌+◌, suc, Bool-cases, inl, inr, ◌∙◌,
  string_eq, string_discrete, sym, subst,
}
use private_claw.Prelude.Dict.{lookup, insert}
use private_claw.Store.Records.{SessionRecord}
use private_claw.Store.Replay.{
  Turns, is_terminal, is_complete, group_turns, turn_so_far, collect_complete_turns,
  filter_turn_records, is_model_record, stays, turn_slots, is_filled, total,
}

-- The record is one of `rs`.
abbrev pub IsIn : List SessionRecord → SessionRecord → Type 0
IsIn [] r = ⊥
IsIn (x ∷ xs) r = (x ≡ r) ⊎ IsIn xs r

-- A record from `rs` that belongs to the turn.
abbrev pub IsOf : List SessionRecord → String → SessionRecord → Type 0
IsOf rs turn_id r = (r.turn_id ≡ turn_id) × IsIn rs r

abbrev pub AreOf : List SessionRecord → String × List SessionRecord → Type 0
AreOf rs e = All (IsOf rs e.0) e.1

turn_so_far-cons :
    (k j : String) (w : List SessionRecord) (turns : Turns)
    → turn_so_far k ((j, w) ∷ turns) ≡ (if j == k then w else turn_so_far k turns)
unfolding turn_so_far lookup
turn_so_far-cons k j w turns = ground arith

module _ (all : List SessionRecord) where
  AreOf-insert :
      (k : String) (v : List SessionRecord) (turns : Turns)
      → All (AreOf all) turns
      → AreOf all (k, v)
      → All (AreOf all) (insert k v turns)
  unfolding insert
  AreOf-insert k v [] h new = (new, tt)
  AreOf-insert k v ((j, w) ∷ turns) h new = elim (Bool-cases (j == k)) [
    | inl same ↦ rw same (new, h.1)
    | inr other ↦ rw other (h.0, AreOf-insert k v turns h.1 new)
  ]

  AreOf-turn_so_far :
      (k : String) (turns : Turns) → All (AreOf all) turns → AreOf all (k, turn_so_far k turns)
  unfolding turn_so_far lookup
  AreOf-turn_so_far k [] h = tt
  AreOf-turn_so_far k ((j, w) ∷ turns) h = elim (string_discrete j k) [
    | yes e ↦
        subst (All (IsOf all k)) (sym (turn_so_far-cons k j w turns ∙ ground arith))
          (subst (λ t. All (IsOf all t) w) e h.0)
    | no ne ↦
        subst (All (IsOf all k)) (sym (turn_so_far-cons k j w turns ∙ ground arith))
          (AreOf-turn_so_far k turns h.1)
  ]

  group_turns-AreOf :
      (turns : Turns) (rs : List SessionRecord)
      → All (AreOf all) turns
      → All (IsIn all) rs
      → All (AreOf all) (group_turns turns rs)
  unfolding group_turns
  group_turns-AreOf turns [] h i = h
  group_turns-AreOf turns (r ∷ rs) h i =
      let k = r.turn_id in
      group_turns-AreOf (insert k (turn_so_far k turns ++ r ∷ []) turns) rs
        (AreOf-insert k (turn_so_far k turns ++ r ∷ []) turns h (
          All-append (IsOf all k) (turn_so_far k turns) (r ∷ []) (AreOf-turn_so_far k turns h)
            ((refl, i.0), tt)))
        i.1

  -- The turn of the record ended: one of `all` is its terminal record.
  pub record HasEnded (turn_id : String) : Type 0 where
    pub terminal : SessionRecord
    pub is_terminal_record : is_terminal terminal.record_type ≡ true
    pub same_turn : terminal.turn_id ≡ turn_id
    pub on_file : IsIn all terminal

  HasEnded-of_any :
      (k : String) (rs : List SessionRecord)
      → All (IsOf all k) rs
      → is_complete rs ≡ true
      → HasEnded k
  HasEnded-of_any k [] h c = absurd (ground arith)
  HasEnded-of_any k (r ∷ rs) h c = elim (Bool-cases (is_terminal r.record_type)) [
    | inl e ↦ record { terminal = r; is_terminal_record = e; same_turn = h.0.0; on_file = h.0.1 }
    | inr e ↦ HasEnded-of_any k rs h.1 (ground arith)
  ]

  -- a record of the history, whose turn has ended
  abbrev pub IsSettled : SessionRecord → Type 0
  IsSettled r = IsIn all r × HasEnded r.turn_id

  IsSettled-turn :
      (k : String) (rs : List SessionRecord)
      → All (IsOf all k) rs
      → is_complete rs ≡ true
      → All IsSettled rs
  IsSettled-turn k rs h c =
      All-map (IsOf all k) IsSettled rs
        (λ r o. (o.1, subst HasEnded (sym o.0) (HasEnded-of_any k rs h c))) h

  IsSettled-turns :
      (turns : Turns)
      → All (AreOf all) turns
      → All (All IsSettled) (filter is_complete (map (λ e. e.1) turns))
  IsSettled-turns [] h = tt
  IsSettled-turns ((k, rs) ∷ turns) h = elim (Bool-cases (is_complete rs)) [
    | inl e ↦ rw e (IsSettled-turn k rs h.0 e, IsSettled-turns turns h.1)
    | inr e ↦ rw e (IsSettled-turns turns h.1)
  ]

  IsSettled-slots :
      (turns : List (List SessionRecord))
      → All (All IsSettled) turns
      → All (All IsSettled) (map filter_turn_records turns)
  unfolding filter_turn_records
  IsSettled-slots [] h = tt
  IsSettled-slots (rs ∷ turns) h =
      let model = filter is_model_record rs in
      (
        All-map _ IsSettled (filter (stays model) model) (λ r x. x.1.1)
            (All-filter _ (stays model) model (All-filter IsSettled is_model_record rs h.0)),
        IsSettled-slots turns h.1,
      )

All-IsIn-cons :
    (x : SessionRecord) (xs rs : List SessionRecord) → All (IsIn xs) rs → All (IsIn (x ∷ xs)) rs
All-IsIn-cons x xs rs h = All-map (IsIn xs) (IsIn (x ∷ xs)) rs (λ r i. inr i) h

All-IsIn : (rs : List SessionRecord) → All (IsIn rs) rs
All-IsIn [] = tt
All-IsIn (r ∷ rs) = (inl refl, All-IsIn-cons r rs rs (All-IsIn rs))

-- Every record that the turns of a replay give to the model is a record of the history, and the
-- history has the terminal record of its turn.
pub turn_slots-IsSettled :
    (ordered : List SessionRecord) → All (All (IsSettled ordered)) (turn_slots ordered)
unfolding turn_slots collect_complete_turns
turn_slots-IsSettled ordered =
    All-map _ (All (IsSettled ordered)) (turn_slots ordered) (λ slot h. h.1)
      (All-filter (All (IsSettled ordered)) is_filled _ (
        IsSettled-slots ordered _ (
          IsSettled-turns ordered (group_turns [] ordered)
            (group_turns-AreOf ordered [] ordered tt (All-IsIn ordered)))))

total-insert :
    (k : String) (r : SessionRecord) (turns : Turns)
    → total (map (λ e. e.1) (insert k (turn_so_far k turns ++ r ∷ []) turns))
      ≡ suc (total (map (λ e. e.1) turns))
unfolding insert total turn_so_far lookup
total-insert k r [] = refl
total-insert k r ((j, w) ∷ turns) =
    ground (arith, turn_so_far-cons k j w turns, length-append w (r ∷ []), total-insert k r turns)

total-group_turns :
    (turns : Turns) (rs : List SessionRecord)
    → total (map (λ e. e.1) (group_turns turns rs)) ≡ total (map (λ e. e.1) turns) + length rs
unfolding group_turns
total-group_turns turns [] = omega arith
total-group_turns turns (r ∷ rs) = omega (
  arith,
  total-insert r.turn_id r turns,
  total-group_turns (insert r.turn_id (turn_so_far r.turn_id turns ++ r ∷ []) turns) rs,
)

-- Grouping by turns loses and doubles nothing: each record of a group is a record of the history
-- with the identifier of the group's turn, and the groups have as many records as the history.
pub group_turns_lem :
    (rs : List SessionRecord)
    → All (AreOf rs) (group_turns [] rs) × (total (map (λ e. e.1) (group_turns [] rs)) ≡ length rs)
unfolding total
group_turns_lem rs =
    (group_turns-AreOf rs [] rs tt (All-IsIn rs), omega (arith, total-group_turns [] rs))
