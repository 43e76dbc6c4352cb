-- ===== src/Telegram/Throttle/Samples.antt =====
-- Runs of the throttle guard on small inputs.
use private_claw.Prelude.{ℕ, ◌≤◌, ◌≡◌, refl, List, [], ◌∷◌, filter, length, ℕ_discrete, arith}
use private_claw.Prelude.Dict.{lookup, insert}
use private_claw.Telegram.Throttle.{ThrottleGuard, throttled, drop_before, check, current_count}
use private_claw.Telegram.Throttle.Window.{in_window}
use private_claw.Telegram.Throttle.Limit.{IsClock, admissions, length-admissions-le}

abbrev fresh : ThrottleGuard
fresh = record { max_per_window = 2; window = 10; buckets = [] }

abbrev events : List (ℕ × ℕ)
events = (1, 0) ∷ (1, 4) ∷ (2, 5) ∷ (1, 6) ∷ (1, 11) ∷ []

program : Unit {0}
unfolding admissions check current_count drop_before lookup insert ℕ_discrete
program = tt

third_is_throttled : admissions 1 events fresh ≡ 0 ∷ 4 ∷ 11 ∷ []
unfolding program
third_is_throttled = refl

says_why : (check 1 6 (check 1 4 (check 1 0 fresh).1).1).0 ≡ throttled 1 2 2
unfolding program
says_why = refl

counts_within : (current_count 1 11 (check 1 4 (check 1 0 fresh).1).1).0 ≡ 1
unfolding program
counts_within = refl

IsClock-events : IsClock 0 events
IsClock-events = (omega arith, (omega arith, (omega arith, (omega arith, (omega arith, tt)))))

length-admissions-le_example : length (filter (in_window 10 1) (admissions 1 events fresh)) ≤ 2
length-admissions-le_example = length-admissions-le 2 10 1 events IsClock-events 1
