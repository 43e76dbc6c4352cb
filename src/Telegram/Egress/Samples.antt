-- ===== src/Telegram/Egress/Samples.antt =====
-- Runs of the outbound delivery on small inputs.
use private_claw.Prelude.{ℕ, zero, suc, ◌≡◌, ◌++◌, refl, none, List, [], ◌∷◌, ℕ_discrete}
use private_claw.Telegram.Egress.{
  Message, Chunk, SendEnd, sent, retry_after, network_error, api_error, succeeded, send_error,
  send_chunks, after_attempt, send_attempts, send,
}
use private_claw.Telegram.Egress.Order.{expected_messages, send_lem}

abbrev chunk : Chunk
chunk = record { chunk_text = "hello"; chunk_entities = [] }

abbrev chunks : List Chunk
chunks = chunk ∷ chunk ∷ chunk ∷ []

-- The second call meets a limit, the fourth a network error.
abbrev bot : ℕ → SendEnd
bot zero = sent
bot (suc zero) = retry_after 7 "slow down"
bot (suc (suc zero)) = sent
bot (suc (suc (suc zero))) = network_error "reset"
bot (suc (suc (suc (suc n)))) = sent

program : Unit {0}
unfolding send send_attempts send_chunks after_attempt ℕ_discrete
program = tt

third_attempt_succeeds : (send bot none 1 chunks 3).result ≡ succeeded
unfolding program
third_attempt_succeeds = refl

sleeps_between : (send bot none 1 chunks 3).sleeps ≡ 7 ∷ 4 ∷ []
unfolding program
sleeps_between = refl

gives_up : (send bot none 1 chunks 2).result ≡ send_error 2 "reset"
unfolding program
gives_up = refl

stops_at_once :
    (send (λ _. api_error "bad request") none 1 chunks 3).result ≡ send_error 1 "bad request"
unfolding program
stops_at_once = refl

send_lem_example :
    let r = send bot none 1 chunks 3 in
    ((rest : List Message) × (r.progress.confirmed ++ rest ≡ expected_messages none chunks))
    × (r.result ≡ succeeded → r.progress.confirmed ≡ expected_messages none chunks)
send_lem_example = send_lem bot none 1 chunks 3
