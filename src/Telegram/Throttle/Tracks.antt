-- ===== src/Telegram/Throttle/Tracks.antt =====
-- What a bucket of the guard in src/assistant/channels/telegram/reliability/throttle.py holds of the
-- events that were admitted.
use private_claw.Prelude.{
  ℕ, ◌-◌, ◌≤◌, ◌<◌, ◌≡◌, List, [], ◌∷◌, ◌++◌, filter, length, leb, nat_eq, arith, length-append,
  subst, sym, ◌∙◌, ap, append-nil,
}
use private_claw.Telegram.Throttle.{drop_before}
use private_claw.Telegram.Throttle.Window.{
  IsAscendingTo, drop_before-filter, filter-filter, filter-append, IsAscendingTo-filter,
  IsAscendingTo-snoc, IsAscendingTo-later, in_window, length-in_window-le,
}

-- A bucket tracks the events that were admitted for its user until `last`: it holds those of every
-- window that is still open, and no window has more than `limit` events.
pub record Tracks (limit window last : ℕ) (history bucket : List ℕ) : Type 0 where
  pub ordered : IsAscendingTo last history
  pub ordered_bucket : IsAscendingTo last bucket
  pub agree : (c : ℕ) → last - window ≤ c → filter (leb c) bucket ≡ filter (leb c) history
  pub kept : (start : ℕ) → length (filter (in_window window start) history) ≤ limit

module _ (limit window last now : ℕ) (history bucket : List ℕ) (later : last ≤ now)
    (h : Tracks limit window last history bucket) where
  dropped : drop_before (now - window) bucket ≡ filter (leb (now - window)) bucket
  dropped = drop_before-filter (now - window) last bucket h.ordered_bucket

  agree_dropped :
      (c : ℕ)
      → now - window ≤ c
      → filter (leb c) (drop_before (now - window) bucket) ≡ filter (leb c) history
  agree_dropped c e =
      ap (filter (leb c)) dropped
      ∙ filter-filter (now - window) c bucket e
      ∙ h.agree c (omega arith)

  pub Tracks-untouched : Tracks limit window now history bucket
  Tracks-untouched = record {
    ordered = IsAscendingTo-later last now history later h.ordered;
    ordered_bucket = IsAscendingTo-later last now bucket later h.ordered_bucket;
    agree = λ c e. h.agree c (omega arith);
    kept = h.kept;
  }

  pub Tracks-throttled : Tracks limit window now history (drop_before (now - window) bucket)
  Tracks-throttled = record {
    ordered = IsAscendingTo-later last now history later h.ordered;
    ordered_bucket = subst (IsAscendingTo now) (sym dropped) (
        IsAscendingTo-filter now _ bucket
          (IsAscendingTo-later last now bucket later h.ordered_bucket));
    agree = agree_dropped;
    kept = h.kept;
  }

  length-window-snoc :
      (start : ℕ)
      → length (drop_before (now - window) bucket) < limit
      → length (filter (in_window window start) (history ++ now ∷ [])) ≤ limit
  length-window-snoc start e = ground (
    arith,
    filter-append (in_window window start) history (now ∷ []),
    length-append (filter (in_window window start) history) (now ∷ []),
    append-nil (filter (in_window window start) history),
    length-in_window-le window start now history,
    agree_dropped (now - window),
    filter-filter (now - window) (now - window) bucket,
    dropped,
    h.kept start,
  )

  pub Tracks-admitted :
      length (drop_before (now - window) bucket) < limit
      → Tracks limit window now
          (history ++ now ∷ [])
          (drop_before (now - window) bucket ++ now ∷ [])
  Tracks-admitted e = record {
    ordered = IsAscendingTo-snoc last now history later h.ordered;
    ordered_bucket =
        subst (λ l. IsAscendingTo now (l ++ now ∷ [])) (sym dropped)
          (IsAscendingTo-snoc last now _ later
            (IsAscendingTo-filter last _ bucket h.ordered_bucket));
    agree = λ c f.
        filter-append (leb c) (drop_before (now - window) bucket) (now ∷ [])
        ∙ ap (λ l. l ++ filter (leb c) (now ∷ [])) (agree_dropped c f)
        ∙ sym (filter-append (leb c) history (now ∷ []));
    kept = λ start. length-window-snoc start e;
  }
