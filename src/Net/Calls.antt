-- ===== src/Net/Calls.antt =====
-- The calls of a loop over a UDP socket, `recv_from` and `send_to` once in each round. Whether they
-- succeed is up to the operating system: sending to port 0 fails, for example.
use meshlet.Common.{ℕ, zero, suc, Bool, true, ◌&&◌}

-- The rounds count from 0.
pub record Calls : Type 0 where
  pub receives : ℕ → Bool
  pub sends : ℕ → Bool

-- No call fails in so many rounds, from a round on.
abbrev pub succeed : Calls → ℕ → ℕ → Bool
succeed calls round zero = true
succeed calls round (suc more) =
    calls.receives round && (calls.sends round && succeed calls (suc round) more)

abbrev pub reliable : Calls
reliable = record { receives = λ _. true; sends = λ _. true }
