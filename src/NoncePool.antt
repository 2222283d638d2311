-- ===== src/NoncePool.antt =====
-- src/nonce_pool.h: the nonces that a server gave out for digest authentication, each with the timer
-- that takes it back. The pool's lock covers each operation.
pub mod SingleUse
use Prim.Native.String.{String}
use linear_cpp.Prelude.{
  ℕ, Bool, List, [], ◌∷◌, ◌++◌, if◌then◌else◌, any, erase_first, Bytes, eq_bytes,
}
use linear_cpp.Prelude.Int.{ℤ}
use linear_cpp.ErrorMap.{lnr_ealready}
use linear_cpp.Error.{Error, error}
use linear_cpp.Timer
use linear_cpp.Timer.{TimerImpl, Answers, Effect}

-- NONCE_TIMEOUT: 1 min.
abbrev pub nonce_timeout : ℕ
nonce_timeout = 60000

-- A timer's callback is `OnTimer` with the nonce of its context. The entry and the local copy in
-- `Add` share one timer.
pub record Nonce : Type 0 where
  pub nonce : Bytes
  pub timer : TimerImpl Bytes

abbrev pub holds : Bytes → Nonce → Bool
holds nonce n = eq_bytes nonce n.nonce

unfoldable pub is_valid : Bytes → List Nonce → Bool
is_valid nonce pool = any (holds nonce) pool

module _ (tv : String → ℤ) where
  -- `Add`: the entry stays also if its timer does not start.
  unfoldable pub add :
      Bytes → ℕ → Answers → ℕ → List Nonce → List Nonce × ℕ × Error × List (Effect Bytes)
  add nonce timeout answers next_id pool =
      let (timer, next_id', e, effects) =
        Timer.start_timer tv nonce timeout answers next_id Timer.new in
      if any (holds nonce) pool
      then (pool, next_id, error lnr_ealready, [])
      else (pool ++ record { nonce = nonce; timer = timer } ∷ [], next_id', e, effects)

-- The first entry of a nonce, with its timer stopped, as the timer's expiry leaves it.
stop_entry : Bytes → List Nonce → List Nonce
stop_entry nonce [] = []
stop_entry nonce (n ∷ pool) =
    if holds nonce n
    then record n { timer = (Timer.stop n.timer).0 } ∷ pool
    else n ∷ stop_entry nonce pool

-- The effects of stopping the timer of the first entry of a nonce.
stop_effects : Bytes → List Nonce → List (Effect Bytes)
stop_effects nonce [] = []
stop_effects nonce (n ∷ pool) =
    if holds nonce n then (Timer.stop n.timer).1 else stop_effects nonce pool

unfoldable pub remove : Bytes → List Nonce → List Nonce × List (Effect Bytes)
unfolding stop_effects
remove nonce pool = (erase_first (holds nonce) pool, stop_effects nonce pool)

-- `TimerImpl::OnTimer` of the entry's timer: it stops the timer and calls `NoncePool::OnTimer`.
unfoldable pub on_timer : Bytes → List Nonce → List Nonce × List (Effect Bytes)
unfolding stop_entry stop_effects
on_timer nonce pool =
    let (pool', effects) = remove nonce (stop_entry nonce pool) in
    (pool', stop_effects nonce pool ++ effects)

-- The destructor: the timers of all entries are stopped.
unfoldable pub destroy : List Nonce → List (Effect Bytes)
destroy [] = []
destroy (n ∷ pool) = (Timer.stop n.timer).1 ++ destroy pool
