-- ===== src/Telegram/Throttle/Limit.antt =====
-- The limit that the guard of src/assistant/channels/telegram/reliability/throttle.py keeps.
use private_claw.Prelude.{
  ℕ, ◌-◌, ◌≤◌, ◌<◌, ◌≡◌, refl, Bool, true, false, List, [], ◌∷◌, ◌++◌, filter, length, leb,
  if◌then◌else◌, ◌==◌, ◌&&◌, nat_eq, arith, subst, sym, Bool-cases, inl, inr, append-nil,
  append_assoc,
}
use private_claw.Prelude.Dict.{Dict, lookup, insert, lookup-insert}
use private_claw.Telegram.Throttle.{
  ThrottleGuard, Verdict, admitted, throttled, drop_before, bucket_of, with_bucket, check,
}
use private_claw.Telegram.Throttle.Window.{in_window}
use private_claw.Telegram.Throttle.Tracks.{
  Tracks, Tracks-untouched, Tracks-throttled, Tracks-admitted,
}

abbrev pub is_admitted : Verdict → Bool
is_admitted admitted = true
is_admitted (throttled _ _ _) = false

-- The moments of the events of a user that a sequence of events, each a user and a moment, has
-- admitted.
unfoldable pub admissions : ℕ → List (ℕ × ℕ) → ThrottleGuard → List ℕ
admissions user [] g = []
admissions user ((other, now) ∷ events) g =
    let (verdict, g') = check other now g in
    let rest = admissions user events g' in
    if other == user && is_admitted verdict then now ∷ rest else rest

-- The clock does not go back.
abbrev pub IsClock : ℕ → List (ℕ × ℕ) → Type 0
IsClock last [] = Unit
IsClock last ((_, now) ∷ events) = (last ≤ now) × IsClock now events

bucket-same :
    (user other c : ℕ) (more : List ℕ) (buckets : Dict ℕ (List ℕ))
    → (other == user) ≡ true
    → bucket_of user (insert other (drop_before c (bucket_of other buckets) ++ more) buckets)
      ≡ drop_before c (bucket_of user buckets) ++ more
bucket-same user other c more buckets e =
    ground
      (arith, e, lookup-insert user other (drop_before c (bucket_of other buckets) ++ more) buckets)

bucket-dropped :
    (user other c : ℕ) (buckets : Dict ℕ (List ℕ))
    → (other == user) ≡ true
    → bucket_of user (insert other (drop_before c (bucket_of other buckets)) buckets)
      ≡ drop_before c (bucket_of user buckets)
bucket-dropped user other c buckets e =
    ground (arith, e, lookup-insert user other (drop_before c (bucket_of other buckets)) buckets)

still_free :
    (user other c limit : ℕ) (buckets : Dict ℕ (List ℕ))
    → (other == user) ≡ true
    → leb limit (length (drop_before c (bucket_of other buckets))) ≡ false
    → length (drop_before c (bucket_of user buckets)) < limit
still_free user other c limit buckets e f = ground (arith, e, f)

bucket-other :
    (user other : ℕ) (ts : List ℕ) (buckets : Dict ℕ (List ℕ))
    → (other == user) ≡ false
    → bucket_of user (insert other ts buckets) ≡ bucket_of user buckets
bucket-other user other ts buckets e = ground (arith, e, lookup-insert user other ts buckets)

module _ (user other now : ℕ) (events : List (ℕ × ℕ)) (g : ThrottleGuard) where
  abbrev open_events : List ℕ
  open_events = drop_before (now - g.window) (bucket_of other g.buckets)

  admissions-throttled :
      leb g.max_per_window (length open_events) ≡ true
      → admissions user ((other, now) ∷ events) g
        ≡ admissions user events (with_bucket other open_events g)
  unfolding admissions check
  admissions-throttled e = elim (Bool-cases (other == user)) [
    | inl f ↦ rw (e, f) refl
    | inr f ↦ rw (e, f) refl
  ]

  admissions-same :
      leb g.max_per_window (length open_events) ≡ false
      → (other == user) ≡ true
      → admissions user ((other, now) ∷ events) g
        ≡ now ∷ admissions user events (with_bucket other (open_events ++ now ∷ []) g)
  unfolding admissions check
  admissions-same e f = rw (e, f) refl

  admissions-other :
      leb g.max_per_window (length open_events) ≡ false
      → (other == user) ≡ false
      → admissions user ((other, now) ∷ events) g
        ≡ admissions user events (with_bucket other (open_events ++ now ∷ []) g)
  unfolding admissions check
  admissions-other e f = rw (e, f) refl

admissions-le :
    (user last : ℕ) (events : List (ℕ × ℕ)) (g : ThrottleGuard) (history : List ℕ)
    → IsClock last events
    → Tracks g.max_per_window g.window last history (bucket_of user g.buckets)
    → (start : ℕ)
    → length (filter (in_window g.window start) (history ++ admissions user events g))
      ≤ g.max_per_window
unfolding admissions
admissions-le user last [] g history c h start =
    subst (λ l. length (filter (in_window g.window start) l) ≤ g.max_per_window)
      (sym (append-nil history)) (h.kept start)
admissions-le user last ((other, now) ∷ events) g history c h start =
    let limit = g.max_per_window in
    let bucket = bucket_of user g.buckets in
    let ts = open_events user other now events g in
    let bounded : List ℕ → Type 0 =
      λ l. length (filter (in_window g.window start) (history ++ l)) ≤ limit in
    let untouched = Tracks-untouched limit g.window last now history bucket c.0 h in
    elim (Bool-cases (leb limit (length ts))) [
      | inl full ↦ subst bounded (sym (admissions-throttled user other now events g full)) (
          admissions-le user now events (with_bucket other ts g) history c.1
            (elim (Bool-cases (other == user)) [
              | inl same ↦
                  subst (Tracks limit g.window now history)
                    (sym (bucket-dropped user other (now - g.window) g.buckets same))
                    (Tracks-throttled limit g.window last now history bucket c.0 h)
              | inr differs ↦
                  subst (Tracks limit g.window now history)
                    (sym (bucket-other user other ts g.buckets differs)) untouched
            ])
            start)
      | inr free ↦ elim (Bool-cases (other == user)) [
        | inl same ↦ subst bounded (sym (admissions-same user other now events g free same)) (
            subst (λ l. length (filter (in_window g.window start) l) ≤ limit)
              (append_assoc history (now ∷ [])
                (admissions user events (with_bucket other (ts ++ now ∷ []) g)))
              (admissions-le user now events (with_bucket other (ts ++ now ∷ []) g)
                (history ++ now ∷ []) c.1
                (subst (Tracks limit g.window now (history ++ now ∷ []))
                  (sym (bucket-same user other (now - g.window) (now ∷ []) g.buckets same))
                  (Tracks-admitted limit g.window last now history bucket c.0 h
                    (still_free user other (now - g.window) limit g.buckets same free)))
                start))
        | inr differs ↦
            subst bounded (sym (admissions-other user other now events g free differs)) (
              admissions-le user now events (with_bucket other (ts ++ now ∷ []) g) history c.1
                (subst (Tracks limit g.window now history)
                  (sym (bucket-other user other (ts ++ now ∷ []) g.buckets differs)) untouched)
                start)
      ]
    ]

-- Whatever events come, of whatever users, as long as the clock does not go back: of the events of
-- one user that a fresh guard admits, no window has more than the limit.
pub length-admissions-le :
    (limit window : ℕ) (user : ℕ) (events : List (ℕ × ℕ))
    → IsClock 0 events
    → (start : ℕ)
    → length (
        filter (in_window window start) (
          admissions user events
            (record { max_per_window = limit; window = window; buckets = [] })))
      ≤ limit
unfolding lookup
length-admissions-le limit window user events c start =
    admissions-le user 0 events (record { max_per_window = limit; window = window; buckets = [] })
      [] c
      (record {
        ordered = tt;
        ordered_bucket = tt;
        agree = λ c e. refl;
        kept = λ start. omega arith;
      })
      start
