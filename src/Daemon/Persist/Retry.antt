-- ===== src/Daemon/Persist/Retry.antt =====
-- The retries of `persistDriverEvent` in src/daemon/daemon.ts.
use codedeck.Common.{
  Floats, ℕ, zero, suc, ◌+◌, ◌*◌, ◌≤◌, Text, ◌≡◌, refl, false, Option, List, ◌∷◌, arith,
}
use codedeck.Core.Event.{AgentEvent}
use codedeck.Daemon.Persist.Usage.{Database}
use codedeck.Daemon.Persist.{
  Offsets, Attempt, free, busy, persist_driver_event, transaction, outcome, error_in, retry_delay,
}

-- The store is busy this often while the daemon is not shutting down.
abbrev pub busy_times : ℕ → List Attempt → List Attempt
busy_times zero attempts = attempts
busy_times (suc n) attempts = busy false ∷ busy_times n attempts

-- The time slept behind the attempts `0`, …, `n - 1`.
abbrev pub slept : ℕ → ℕ
slept zero = 0
slept (suc n) = slept n + retry_delay n

slept_most : (n : ℕ) → slept n ≤ n * 2000
unfolding retry_delay
slept_most zero = omega arith
slept_most (suc n) = omega (arith, slept_most n)

module _ ⦃fl : Floats⦄ (db : Database) (sid : Text) (ev : AgentEvent) (o : Option Offsets)
    (now : ℕ) where
  retried :
      (n : ℕ) (rest : List Attempt)
      → persist_driver_event db sid ev o now (busy_times n (free ∷ rest))
        ≡ outcome (error_in db sid) (transaction db sid ev o now)
  unfolding persist_driver_event
  retried zero rest = refl
  retried (suc n) rest = retried n rest

  -- However often the store is busy before it is free, unless the daemon shuts down: the loop ends,
  -- with what one transaction on the database as it was gives, and has slept at most two seconds
  -- for each busy answer.
  pub persist-busy_times :
      (n : ℕ) (rest : List Attempt)
      → (persist_driver_event db sid ev o now (busy_times n (free ∷ rest))
          ≡ outcome (error_in db sid) (transaction db sid ev o now))
        × (slept n ≤ n * 2000)
  persist-busy_times n rest = (retried n rest, slept_most n)
