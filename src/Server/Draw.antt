-- ===== src/Server/Draw.antt =====
-- The nonce that `CreateAuthenticationHeader` of src/ws_server_impl.cpp and src/wss_server_impl.cpp
-- draws: it draws again as long as the pool holds what it drew.
pub mod Ends
use Prim.Native.String.{String}
use linear_cpp.Prelude.{ℕ, zero, suc, List, [], ◌++◌, Option, none, some, if◌then◌else◌, Bytes}
use linear_cpp.Prelude.Int.{ℤ}
use linear_cpp.ErrorMap.{lnr_ok, lnr_ealready}
use linear_cpp.Error.{Error, error, eq_error}
use linear_cpp.NoncePool
use linear_cpp.NoncePool.{Nonce, nonce_timeout}
use linear_cpp.Timer.{Answers, Effect}

-- How the loop ends: it fails, with the pool as it is then, or it has a nonce. `exhausted` stands
-- for a loop that goes on when the fuel is used up.
pub data Drawn : Type 0 where
  exhausted : Drawn
  failed : List Nonce → ℕ → List (Effect Bytes) → Drawn
  drawn : Bytes → List Nonce → ℕ → List (Effect Bytes) → Drawn

-- What was done before the end of the loop.
prepend : List (Effect Bytes) → Drawn → Drawn
prepend before exhausted = exhausted
prepend before (failed pool next_id effects) = failed pool next_id (before ++ effects)
prepend before (drawn nonce pool next_id effects) = drawn nonce pool next_id (before ++ effects)

-- `random` are the texts that buffer_fill_random and buffer_to_base64 give in turn, and `answers`
-- those that the timers of the nonces get.
module _ (tv : String → ℤ) (random : ℕ → Option Bytes) (answers : ℕ → Answers) where
  -- `again` is the rest of the loop, on the pool and the next timer id that `Add` left.
  settle : Bytes → List Nonce × ℕ × Error × List (Effect Bytes) → (List Nonce → ℕ → Drawn) → Drawn
  unfolding prepend
  settle nonce (pool, next_id, e, effects) again =
      if eq_error e (error lnr_ealready)
      then prepend effects (again pool next_id)
      else if eq_error e (error lnr_ok)
      then drawn nonce pool next_id effects
      else failed pool next_id effects

  try : Option Bytes → ℕ → ℕ → List Nonce → (List Nonce → ℕ → Drawn) → Drawn
  unfolding settle
  try none i next_id pool again = failed pool next_id []
  try (some nonce) i next_id pool again =
      settle nonce (NoncePool.add tv nonce nonce_timeout (answers i) next_id pool) again

  -- The loop from the draw `i` on.
  unfoldable pub draw : ℕ → ℕ → ℕ → List Nonce → Drawn
  unfolding try
  draw zero i next_id pool = exhausted
  draw (suc fuel) i next_id pool =
      let again = λ (pool' : List Nonce) (next_id' : ℕ). draw fuel (suc i) next_id' pool' in
      try (random i) i next_id pool again
