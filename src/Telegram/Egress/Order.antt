-- ===== src/Telegram/Egress/Order.antt =====
-- What the chat gets of a response that src/assistant/channels/telegram/egress.py sends.
use private_claw.Prelude.{
  ℕ, zero, suc, ◌+◌, ◌≤◌, String, ◌≡◌, refl, Option, List, [], ◌∷◌, ◌++◌, length, drop, ltb, arith,
  Bool, true, false, none, ◌==◌, nat_eq, ap, sym, ◌∙◌, subst, Bool-cases, inl, inr, append-nil,
  append_assoc,
}
use native.Mathlib.Numerals.{unary_clauses}
use private_claw.Telegram.Egress.{
  mode_unless, called, advanced, after_call, Chunk, Message, SendEnd, sent, retry_after,
  network_error, api_error, Progress, succeeded, Sent, message, send_chunks, after_attempt,
  send_attempts, send, slept,
}

-- the messages for chunks from a position on
abbrev pub messages : Option String → ℕ → ℕ → List Chunk → List Message
messages parse_mode total index [] = []
messages parse_mode total index (chunk ∷ chunks) =
    message parse_mode total index chunk ∷ messages parse_mode total (suc index) chunks

-- The messages confirmed are those of the first chunks, each once and in order.
record IsPrefix (parse_mode : Option String) (chunks : List Chunk) (p : Progress) : Type 0 where
  pub within : p.sent_chunks ≤ length chunks
  pub first :
      p.confirmed ++ messages parse_mode (length chunks) p.sent_chunks (drop p.sent_chunks chunks)
      ≡ messages parse_mode (length chunks) 0 chunks

module _ (bot : ℕ → SendEnd) (parse_mode : Option String) (total : ℕ) where
  -- The loop adds the messages of its first chunks, all of them if it ends without a failure.
  record Extends (chunks : List Chunk) (p p' : Progress) (end : SendEnd) : Type 0 where
    pub more : ℕ
    pub within : more ≤ length chunks
    pub counted : p'.sent_chunks ≡ more + p.sent_chunks
    pub added :
        p'.confirmed ++ messages parse_mode total p'.sent_chunks (drop more chunks)
        ≡ p.confirmed ++ messages parse_mode total p.sent_chunks chunks
    pub all : end ≡ sent → more ≡ length chunks

  Extends-nothing :
      (chunks : List Chunk) (p : Progress) (end : SendEnd)
      → (end ≡ sent → 0 ≡ length chunks)
      → Extends chunks p (called p) end
  Extends-nothing chunks p end h = record {
    more = 0;
    within = omega arith;
    counted = omega arith;
    added = refl;
    all = h;
  }

  after_call-Extends :
      (chunk : Chunk) (chunks : List Chunk) (p : Progress) (e : SendEnd) (rest : SendEnd × Progress)
      → Extends chunks (advanced (message parse_mode total p.sent_chunks chunk) p) rest.1 rest.0
      → Extends (chunk ∷ chunks) p (after_call e p rest).1 (after_call e p rest).0
  after_call-Extends chunk chunks p sent rest h =
      let m = message parse_mode total p.sent_chunks chunk in
      record {
        more = suc h.more;
        within = omega (arith, h.within);
        counted = omega (arith, h.counted);
        added =
            h.added
            ∙ append_assoc p.confirmed (m ∷ [])
                (messages parse_mode total (suc p.sent_chunks) chunks);
        all = λ e. ap suc (h.all e);
      }
  after_call-Extends chunk chunks p (retry_after n x) rest h =
      Extends-nothing (chunk ∷ chunks) p (retry_after n x) (λ e. absurd (cc e))
  after_call-Extends chunk chunks p (network_error x) rest h =
      Extends-nothing (chunk ∷ chunks) p (network_error x) (λ e. absurd (cc e))
  after_call-Extends chunk chunks p (api_error x) rest h =
      Extends-nothing (chunk ∷ chunks) p (api_error x) (λ e. absurd (cc e))

  send_chunks-Extends :
      (chunks : List Chunk) (p : Progress)
      → let (end, p') = send_chunks bot parse_mode total chunks p in Extends chunks p p' end
  unfolding send_chunks
  send_chunks-Extends [] p = record {
    more = 0;
    within = omega arith;
    counted = omega arith;
    added = refl;
    all = λ _. refl;
  }
  send_chunks-Extends (chunk ∷ chunks) p =
      after_call-Extends chunk chunks p (bot p.calls) _
        (send_chunks-Extends chunks (advanced (message parse_mode total p.sent_chunks chunk) p))

drop-nil {ℓ} : {A : Type ℓ} (n : ℕ) → drop {A = A} n [] ≡ []
drop-nil zero = refl
drop-nil (suc n) = refl

drop-drop {ℓ} : {A : Type ℓ} (n m : ℕ) (xs : List A) → drop n (drop m xs) ≡ drop (n + m) xs
drop-drop n zero xs = simp unary_clauses refl
drop-drop n (suc m) [] = drop-nil n ∙ sym (drop-nil (n + suc m))
drop-drop n (suc m) (x ∷ xs) = simp unary_clauses (drop-drop n m xs)

length-drop {ℓ} :
    {A : Type ℓ} (n : ℕ) (xs : List A) → n ≤ length xs → n + length (drop n xs) ≡ length xs
length-drop zero xs h = omega arith
length-drop (suc n) [] h = absurd (omega arith)
length-drop (suc n) (x ∷ xs) h = omega (arith, length-drop n xs)

drop-length {ℓ} : {A : Type ℓ} (xs : List A) → drop (length xs) xs ≡ []
drop-length [] = refl
drop-length (x ∷ xs) = drop-length xs

module _ (bot : ℕ → SendEnd) (parse_mode : Option String) (base_delay : ℕ)
    (chunks : List Chunk) where
  abbrev all_messages : List Message
  all_messages = messages parse_mode (length chunks) 0 chunks

  record IsInOrder (r : Sent) : Type 0 where
    pub prefix : IsPrefix parse_mode chunks r.progress
    pub complete : r.result ≡ succeeded → r.progress.confirmed ≡ all_messages

  attempt-IsPrefix :
      (p p' : Progress) (end : SendEnd)
      → IsPrefix parse_mode chunks p
      → Extends bot parse_mode (length chunks) (drop p.sent_chunks chunks) p p' end
      → IsPrefix parse_mode chunks p' × (end ≡ sent → p'.confirmed ≡ all_messages)
  attempt-IsPrefix p p' end i h =
      let rest = drop p.sent_chunks chunks in
      let same : drop p'.sent_chunks chunks ≡ drop h.more rest =
        ap (λ k. drop k chunks) h.counted ∙ sym (drop-drop h.more p.sent_chunks chunks) in
      let whole : p'.confirmed
            ++ messages parse_mode (length chunks) p'.sent_chunks (drop h.more rest)
          ≡ all_messages =
        h.added ∙ i.first in
      (
        record {
          within =
              omega
                (arith, h.counted, h.within, i.within, length-drop p.sent_chunks chunks i.within);
          first =
              subst
                (λ l.
                  p'.confirmed ++ messages parse_mode (length chunks) p'.sent_chunks l
                  ≡ all_messages)
                (sym same) whole;
        },
        (λ e.
            sym (append-nil p'.confirmed)
            ∙ subst
                (λ l.
                  p'.confirmed ++ messages parse_mode (length chunks) p'.sent_chunks l
                  ≡ all_messages)
                (ap (λ k. drop k rest) (h.all e) ∙ drop-length rest) whole),
      )

  slept-IsInOrder : (seconds : ℕ) (r : Sent) → IsInOrder r → IsInOrder (slept seconds r)
  slept-IsInOrder seconds r h = record { prefix = h.prefix; complete = h.complete }

  after_attempt-IsInOrder :
      (left attempt : ℕ) (end : SendEnd) (p : Progress) (next : String → Sent)
      → IsPrefix parse_mode chunks p
      → (end ≡ sent → p.confirmed ≡ all_messages)
      → ((error : String) → IsInOrder (next error))
      → IsInOrder (after_attempt base_delay left attempt end p next)
  unfolding after_attempt
  after_attempt-IsInOrder left attempt sent p next i done go = record {
    prefix = i;
    complete = λ _. done refl;
  }
  after_attempt-IsInOrder left attempt (api_error error) p next i done go = record {
    prefix = i;
    complete = λ e. absurd (cc e);
  }
  after_attempt-IsInOrder left attempt (retry_after seconds error) p next i done go =
      elim (Bool-cases (ltb 0 left)) [
        | inl e ↦ rw e (slept-IsInOrder seconds (next error) (go error))
        | inr e ↦ rw e (go error)
      ]
  after_attempt-IsInOrder left attempt (network_error error) p next i done go =
      elim (Bool-cases (ltb 0 left)) [
        | inl e ↦ rw e (slept-IsInOrder _ (next error) (go error))
        | inr e ↦ rw e (go error)
      ]

  send_attempts-IsInOrder :
      (left made : ℕ) (last_error : String) (p : Progress)
      → IsPrefix parse_mode chunks p
      → IsInOrder (send_attempts bot parse_mode base_delay chunks left made last_error p)
  unfolding send_attempts
  send_attempts-IsInOrder zero made last_error p i = record {
    prefix = i;
    complete = λ e. absurd (cc e);
  }
  send_attempts-IsInOrder (suc left) made last_error p i =
      let (end, p') = send_chunks bot parse_mode (length chunks) (drop p.sent_chunks chunks) p in
      let (i', done) =
        attempt-IsPrefix p p' end i
          (send_chunks-Extends bot parse_mode (length chunks) (drop p.sent_chunks chunks) p) in
      after_attempt-IsInOrder left (suc made) end p' _ i' done
        (λ error. send_attempts-IsInOrder left (suc made) error p' i')

-- the message for a chunk: its text and entities, the parse mode only where it has no entities
abbrev pub expected_message : Option String → Bool → Chunk → Message
expected_message parse_mode markup chunk = record {
  text = chunk.chunk_text;
  reply_markup = markup;
  entities = chunk.chunk_entities;
  parse_mode = elim chunk.chunk_entities [ [] ↦ parse_mode | _ ∷ _ ↦ none ];
}

-- the messages of a response, of which only the last has the markup
abbrev pub expected_messages : Option String → List Chunk → List Message
expected_messages parse_mode [] = []
expected_messages parse_mode (c ∷ []) = expected_message parse_mode true c ∷ []
expected_messages parse_mode (c ∷ d ∷ chunks) =
    expected_message parse_mode false c ∷ expected_messages parse_mode (d ∷ chunks)

mode_lem :
    (entities : List String) (parse_mode : Option String)
    → mode_unless entities parse_mode ≡ elim entities [ [] ↦ parse_mode | _ ∷ _ ↦ none ]
mode_lem [] parse_mode = refl
mode_lem (_ ∷ _) parse_mode = refl

message_lem :
    (parse_mode : Option String) (total index : ℕ) (markup : Bool) (c : Chunk)
    → (suc index == total) ≡ markup
    → message parse_mode total index c ≡ expected_message parse_mode markup c
message_lem parse_mode total index markup c h =
    let with_mode : Option String → Message = λ mode. record {
      text = c.chunk_text;
      reply_markup = markup;
      entities = c.chunk_entities;
      parse_mode = mode;
    } in
    rw h (ap with_mode (mode_lem c.chunk_entities parse_mode))

messages_lem :
    (parse_mode : Option String) (total index : ℕ) (chunks : List Chunk)
    → index + length chunks ≡ total
    → messages parse_mode total index chunks ≡ expected_messages parse_mode chunks
messages_lem parse_mode total index [] h = refl
messages_lem parse_mode total index (c ∷ []) h =
    ap (λ m. m ∷ []) (message_lem parse_mode total index true c (ground (arith, h)))
messages_lem parse_mode total index (c ∷ d ∷ chunks) h =
    let first = message_lem parse_mode total index false c (ground (arith, h)) in
    let rest = messages_lem parse_mode total (suc index) (d ∷ chunks) (omega (arith, h)) in
    ap (λ m. m ∷ messages parse_mode total (suc index) (d ∷ chunks)) first
    ∙ ap (λ l. expected_message parse_mode false c ∷ l) rest

-- However the bot's calls end, the messages that the API confirms are those of the first chunks of
-- the response, in order and each once, a retry going on after the last one that was confirmed, and
-- only the message of the last chunk carries the markup; and a send that succeeds has all of them
-- confirmed.
pub send_lem :
    (bot : ℕ → SendEnd) (parse_mode : Option String) (base_delay : ℕ) (chunks : List Chunk)
    (max_attempts : ℕ)
    → let r = send bot parse_mode base_delay chunks max_attempts in
      ((rest : List Message) × (r.progress.confirmed ++ rest ≡ expected_messages parse_mode chunks))
      × (r.result ≡ succeeded → r.progress.confirmed ≡ expected_messages parse_mode chunks)
unfolding send
send_lem bot parse_mode base_delay chunks max_attempts =
    let h =
      send_attempts-IsInOrder bot parse_mode base_delay chunks max_attempts 0 ""
        (record { confirmed = []; sent_chunks = 0; calls = 0 })
        (record { within = omega arith; first = refl }) in
    let all = messages_lem parse_mode (length chunks) 0 chunks (omega arith) in
    ((_, h.prefix.first ∙ all), λ e. h.complete e ∙ all)
