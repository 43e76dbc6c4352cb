-- ===== src/Telegram/Egress.antt =====
-- TelegramEgress.send of src/assistant/channels/telegram/egress.py. The chunks are what the
-- formatter or `_split_text` makes of the response's text; the bot's answers are an argument.
pub mod Order
pub mod Attempts
mod Samples
use private_claw.Prelude.{
  ℕ, zero, suc, ◌+◌, ◌*◌, ◌^◌, String, Option, none, some, Bool, true, false, List, [], ◌∷◌, ◌++◌,
  length, drop, ltb, if◌then◌else◌, ◌==◌, nat_eq,
}

-- a chunk of the text, with its entities
pub record Chunk : Type 0 where
  pub chunk_text : String
  pub chunk_entities : List String

-- the keyword arguments of `send_message`; `reply_markup` is whether the response's markup is given
pub record Message : Type 0 where
  pub text : String
  pub reply_markup : Bool
  pub entities : List String
  pub parse_mode : Option String

-- how a call of `send_message` ends: TelegramRetryAfter, TelegramNetworkError, or any other
-- TelegramAPIError, each with its text
pub data SendEnd : Type 0 where
  sent : SendEnd
  retry_after : ℕ → String → SendEnd
  network_error api_error : String → SendEnd

-- the messages whose call returned, which the API so confirmed, `sent_chunks`, and the number of
-- calls so far. A call that fails by the network may have reached the chat all the same.
pub record Progress : Type 0 where
  pub confirmed : List Message
  pub sent_chunks : ℕ
  pub calls : ℕ

-- `True`, or TelegramSendError with the attempts and the last error
pub data SendResult : Type 0 where
  succeeded : SendResult
  send_error : ℕ → String → SendResult

-- the result, the progress, and the seconds of each `asyncio.sleep`
pub record Sent : Type 0 where
  pub result : SendResult
  pub progress : Progress
  pub sleeps : List ℕ

abbrev pub mode_unless : List String → Option String → Option String
mode_unless [] parse_mode = parse_mode
mode_unless (_ ∷ _) parse_mode = none

-- `total` is the number of chunks, `chunk_index` the position of this one.
abbrev pub message : Option String → ℕ → ℕ → Chunk → Message
message parse_mode total chunk_index chunk = record {
  text = chunk.chunk_text;
  reply_markup = suc chunk_index == total;
  entities = chunk.chunk_entities;
  parse_mode = mode_unless chunk.chunk_entities parse_mode;
}

abbrev pub called : Progress → Progress
called p = record p { calls = suc p.calls }

abbrev pub advanced : Message → Progress → Progress
advanced m p = record {
  confirmed = p.confirmed ++ m ∷ [];
  sent_chunks = suc p.sent_chunks;
  calls = suc p.calls;
}

-- after a call of `send_message`: `rest` is the rest of the loop, and an exception ends it
abbrev pub after_call : SendEnd → Progress → SendEnd × Progress → SendEnd × Progress
after_call sent p rest = rest
after_call (retry_after seconds error) p rest = (retry_after seconds error, called p)
after_call (network_error error) p rest = (network_error error, called p)
after_call (api_error error) p rest = (api_error error, called p)

-- `bot n` is how the call number `n` ends.
module _ (bot : ℕ → SendEnd) (parse_mode : Option String) (total : ℕ) where
  -- the body of the `try`: the loop over the chunks that are left, up to the first failure
  unfoldable pub send_chunks : List Chunk → Progress → SendEnd × Progress
  send_chunks [] p = (sent, p)
  send_chunks (chunk ∷ chunks) p =
      after_call (bot p.calls) p
        (send_chunks chunks (advanced (message parse_mode total p.sent_chunks chunk) p))

abbrev pub slept : ℕ → Sent → Sent
slept seconds s = record s { sleeps = seconds ∷ s.sleeps }

-- What follows an attempt: `left` are left, and `next` goes on with them and the last error. There
-- is no sleep after the last one.
unfoldable pub after_attempt : ℕ → ℕ → ℕ → SendEnd → Progress → (String → Sent) → Sent
after_attempt base_delay left attempt sent p next = record {
  result = succeeded;
  progress = p;
  sleeps = [];
}
after_attempt base_delay left attempt (retry_after seconds error) p next =
    if ltb 0 left then slept seconds (next error) else next error
after_attempt base_delay left attempt (network_error error) p next =
    if ltb 0 left then slept (base_delay * 2 ^ attempt) (next error) else next error
after_attempt base_delay left attempt (api_error error) p next = record {
  result = send_error attempt error;
  progress = p;
  sleeps = [];
}

module _ (bot : ℕ → SendEnd) (parse_mode : Option String) (base_delay : ℕ)
    (chunks : List Chunk) where
  -- The loop over the attempts, of which `made` have been made and `left` are left.
  unfoldable pub send_attempts : ℕ → ℕ → String → Progress → Sent
  unfolding send_chunks after_attempt
  send_attempts zero made last_error p = record {
    result = send_error made last_error;
    progress = p;
    sleeps = [];
  }
  send_attempts (suc left) made last_error p =
      let (end, p') = send_chunks bot parse_mode (length chunks) (drop p.sent_chunks chunks) p in
      after_attempt base_delay left (suc made) end p'
        (λ error. send_attempts left (suc made) error p')

  unfoldable pub send : ℕ → Sent
  unfolding send_attempts
  send max_attempts =
      send_attempts max_attempts 0 "" (record { confirmed = []; sent_chunks = 0; calls = 0 })
