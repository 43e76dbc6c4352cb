-- ===== src/Telegram/Egress/Attempts.antt =====
-- How much src/assistant/channels/telegram/egress.py tries for one response.
use private_claw.Prelude.{
  ℕ, zero, suc, ◌+◌, ◌-◌, ◌≤◌, String, Option, List, [], ◌∷◌, length, drop, arith,
}
use private_claw.Telegram.Egress.{
  Chunk, SendEnd, sent, retry_after, network_error, api_error, Progress, SendResult, succeeded,
  send_error, Sent, message, advanced, send_chunks, after_attempt, send_attempts, send,
}

abbrev pub attempts_of : SendResult → ℕ
attempts_of succeeded = 0
attempts_of (send_error attempts _) = attempts

-- One call of the loop's is a failure at most.
send_chunks-calls :
    (bot : ℕ → SendEnd) (parse_mode : Option String) (total : ℕ) (chunks : List Chunk)
    (p : Progress)
    → let p' = (send_chunks bot parse_mode total chunks p).1 in
      p'.calls + p.sent_chunks ≤ suc (p.calls + p'.sent_chunks)
unfolding send_chunks
send_chunks-calls bot parse_mode total [] p = omega arith
send_chunks-calls bot parse_mode total (chunk ∷ chunks) p = ground (
  arith,
  send_chunks-calls bot parse_mode total chunks
      (advanced (message parse_mode total p.sent_chunks chunk) p),
)

-- From a progress with `left` attempts to go, after `made`.
record IsBounded (left made : ℕ) (p : Progress) (r : Sent) : Type 0 where
  pub attempts : attempts_of r.result ≤ made + left
  pub sleeps : length r.sleeps ≤ left - 1
  pub calls : r.progress.calls + p.sent_chunks ≤ (p.calls + r.progress.sent_chunks) + left

after_attempt-IsBounded :
    (base_delay left made : ℕ) (end : SendEnd) (p p' : Progress) (next : String → Sent)
    → p'.calls + p.sent_chunks ≤ suc (p.calls + p'.sent_chunks)
    → ((error : String) → IsBounded left (suc made) p' (next error))
    → IsBounded (suc left) made p (after_attempt base_delay left (suc made) end p' next)
unfolding after_attempt
after_attempt-IsBounded base_delay left made sent p p' next h go = record {
  attempts = omega arith;
  sleeps = omega arith;
  calls = omega arith;
}
after_attempt-IsBounded base_delay left made (api_error error) p p' next h go = record {
  attempts = omega arith;
  sleeps = omega arith;
  calls = omega arith;
}
after_attempt-IsBounded base_delay left made (retry_after seconds error) p p' next h go = record {
  attempts = ground (arith, (go error).attempts);
  sleeps = ground (arith, (go error).sleeps);
  calls = ground (arith, (go error).calls);
}
after_attempt-IsBounded base_delay left made (network_error error) p p' next h go = record {
  attempts = ground (arith, (go error).attempts);
  sleeps = ground (arith, (go error).sleeps);
  calls = ground (arith, (go error).calls);
}

send_attempts-IsBounded :
    (bot : ℕ → SendEnd) (parse_mode : Option String) (base_delay : ℕ) (chunks : List Chunk)
    (left made : ℕ) (last_error : String) (p : Progress)
    → IsBounded left made p (send_attempts bot parse_mode base_delay chunks left made last_error p)
unfolding send_attempts
send_attempts-IsBounded bot parse_mode base_delay chunks zero made last_error p = record {
  attempts = omega arith;
  sleeps = omega arith;
  calls = omega arith;
}
send_attempts-IsBounded bot parse_mode base_delay chunks (suc left) made last_error p =
    let (end, p') = send_chunks bot parse_mode (length chunks) (drop p.sent_chunks chunks) p in
    after_attempt-IsBounded base_delay left made end p p' _
      (send_chunks-calls bot parse_mode (length chunks) (drop p.sent_chunks chunks) p)
      (λ error. send_attempts-IsBounded bot parse_mode base_delay chunks left (suc made) error p')

-- A send makes at most `max_attempts` attempts and sleeps between them only; beside the calls that
-- deliver a chunk it makes at most one for each attempt.
pub send-calls-le :
    (bot : ℕ → SendEnd) (parse_mode : Option String) (base_delay : ℕ) (chunks : List Chunk)
    (max_attempts : ℕ)
    → let r = send bot parse_mode base_delay chunks max_attempts in
      (attempts_of r.result ≤ max_attempts)
      × (length r.sleeps ≤ max_attempts - 1)
      × (r.progress.calls ≤ r.progress.sent_chunks + max_attempts)
unfolding send
send-calls-le bot parse_mode base_delay chunks max_attempts =
    let h =
      send_attempts-IsBounded bot parse_mode base_delay chunks max_attempts 0 ""
        (record { confirmed = []; sent_chunks = 0; calls = 0 }) in
    (omega (arith, h.attempts), h.sleeps, omega (arith, h.calls))
