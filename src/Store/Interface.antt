-- ===== src/Store/Interface.antt =====
-- SessionStoreInterface of src/assistant/store/interfaces.py, but for the operations on whole
-- sessions (session_exists, list_sessions, clear_session): the operations, and what they promise of
-- the records that a read gives.
use private_claw.Prelude.{String, ◌≡◌, ◌<◌, true, List, [], ◌∷◌, ◌++◌, ℕ, All, length, min}
use private_claw.Store.Records.{SessionRecord}
use private_claw.Store.Session.{
  Outcome, done, value_error, same_session, event_ids, next_after, sorted,
}
use private_claw.Store.Session.Firsts.{numbered, additions}
use private_claw.Store.Session.Log.{IsAscending, HasFreshIds}
use private_claw.Store.Replay.{build_replay}

-- `S` is the state of the store.
pub record SessionStore (S : Type 0) : Type 0 where
  pub append : List SessionRecord → S → Outcome × S
  pub read_session : String → S → List SessionRecord
  pub read_window : String → ℕ → S → List SessionRecord
  pub get_next_sequence : String → S → ℕ
  pub replace_session : String → List SessionRecord → S → S

module _ {S : Type 0} (store : SessionStore S) where
  unfoldable pub replay_for_turn : String → ℕ → S → List SessionRecord
  replay_for_turn session_id budget s = build_replay (store.read_session session_id s) budget

  -- of the first record of each event of a batch those that are new to the session, numbered on
  abbrev pub fresh : SessionRecord → List SessionRecord → S → List SessionRecord
  fresh r rs s =
      let existing = store.read_session r.session_id s in
      numbered (next_after existing) (additions (event_ids existing) (r ∷ rs))

  -- `IsValid` is the invariant that the store keeps of its state.
  pub record Laws (IsValid : S → Type 0) : Type 0 where
    pub keeps : (rs : List SessionRecord) (s : S) → IsValid s → IsValid (store.append rs s).1
    pub accepts :
        (r : SessionRecord) (rs : List SessionRecord) (s : S)
        → same_session r.session_id rs ≡ true
        → (store.append (r ∷ rs) s).0 ≡ done
    pub grows :
        (r : SessionRecord) (rs : List SessionRecord) (s : S)
        → IsValid s
        → same_session r.session_id rs ≡ true
        → store.read_session r.session_id (store.append (r ∷ rs) s).1
          ≡ store.read_session r.session_id s ++ fresh r rs s
    pub refuses :
        (rs : List SessionRecord) (s : S)
        → (store.append rs s).0 ≡ value_error
        → (store.append rs s).1 ≡ s
    pub numbers :
        (session_id : String) (s : S)
        → store.get_next_sequence session_id s ≡ next_after (store.read_session session_id s)
    pub above :
        (session_id : String) (s : S)
        → IsValid s
        → All
            (λ r. r.sequence < store.get_next_sequence session_id s)
            (store.read_session session_id s)
    pub ordered :
        (session_id : String) (s : S) → IsValid s → IsAscending 0 (store.read_session session_id s)
    pub windows :
        (session_id : String) (max_records : ℕ) (s : S)
        → 0 < max_records
        → (older : List SessionRecord) × (older ++ store.read_window session_id max_records s
            ≡ store.read_session session_id s)
          × (length (store.read_window session_id max_records s)
              ≡ min max_records (length (store.read_session session_id s)))
    pub distinct :
        (session_id : String) (s : S) → IsValid s → HasFreshIds [] (store.read_session session_id s)
    pub replaces :
        (session_id : String) (rs : List SessionRecord) (s : S)
        → store.read_session session_id (store.replace_session session_id rs s) ≡ sorted rs
    pub restores :
        (session_id : String) (rs : List SessionRecord) (s : S)
        → IsValid s
        → IsAscending 0 rs
        → HasFreshIds [] rs
        → IsValid (store.replace_session session_id rs s)
