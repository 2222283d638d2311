-- ===== src/Server/Draw/Ends.antt =====
-- The loop for a nonce ends (`CreateAuthenticationHeader` of src/ws_server_impl.cpp).
use Prim.Native.String.{String}
use linear_cpp.Prelude.{
  ℕ, zero, suc, ◌+◌, ◌≤◌, ◌<◌, ◌≡◌, ◌⊎◌, refl, ◌∙◌, true, false, ◌||◌, List, [], ◌∷◌, ◌++◌, Option,
  none, some, arith, length, any, any-append, erase_first, length-erase_first, if_lem, inl, inr,
  Bool-cases, Bytes, eq_bytes, eq_bytes_iff,
}
use linear_cpp.Prelude.Int.{ℤ}
use linear_cpp.ErrorMap.{lnr_ok, lnr_ealready}
use linear_cpp.Error.{Error, error, eq_error, from_status}
use linear_cpp.Timer
use linear_cpp.Timer.{Answers, Effect}
use linear_cpp.NoncePool
use linear_cpp.NoncePool.{Nonce, holds, is_valid, nonce_timeout}
use linear_cpp.Server.Draw.{Drawn, exhausted, failed, drawn, draw, prepend, settle, try}

lt-cases : (j i : ℕ) → j < suc i → (j ≡ i) ⊎ (j < i)
lt-cases j i h = ground arith

-- No text is drawn twice.
abbrev pub IsDistinct : (ℕ → Option Bytes) → Type 0
IsDistinct random = (i j : ℕ) (n : Bytes) → random i ≡ some n → random j ≡ some n → i ≡ j

any-erase_other :
    (m n : Bytes) (pool : List Nonce)
    → eq_bytes m n ≡ false
    → any (holds m) (erase_first (holds n) pool) ≡ any (holds m) pool
any-erase_other m n [] h = refl
any-erase_other m n (e ∷ pool) h = ground (
  arith,
  eq_bytes_iff m e.nonce,
  eq_bytes_iff n e.nonce,
  eq_bytes_iff m n,
  any-erase_other m n pool h,
)

-- The draw `i` gave a text that the pool holds.
abbrev IsTaken : (ℕ → Option Bytes) → List Nonce → ℕ → Type 0
IsTaken random pool i = (n : Bytes) × (random i ≡ some n) × (any (holds n) pool ≡ true)

-- A pool that holds so many different draws has at least as many entries.
taken-length :
    (random : ℕ → Option Bytes)
    → IsDistinct random
    → (k : ℕ) (pool : List Nonce) → ((i : ℕ) → i < k → IsTaken random pool i)
    → k ≤ length pool
taken-length random distinct zero pool taken = omega arith
taken-length random distinct (suc k) pool taken =
    let (n, drew, held) = taken k (omega arith) in
    let ih = taken-length random distinct k (erase_first (holds n) pool) (λ i lt.
      (let (m, drew', held') = taken i (omega (arith, lt)) in
        (m, drew', any-erase_other m n pool (other m n i lt drew' drew) ∙ held'))) in
    ground (arith, ih, length-erase_first (holds n) pool, held)
  where
    other :
        (m n : Bytes) (i : ℕ) → i < k → random i ≡ some m → random k ≡ some n → eq_bytes m n ≡ false
    other m n i lt a b = elim (Bool-cases (eq_bytes m n)) [
      | inl e ↦
          let same = distinct i k n (rw ((eq_bytes_iff m n).0 e) at a) b in
          absurd (omega (arith, same, lt))
      | inr e ↦ e
    ]

-- Neither tv_timer_init nor tv_timer_start says that a fresh timer runs already.
abbrev pub IsTimely : (String → ℤ) → Answers → Type 0
IsTimely tv a =
    (eq_error (from_status tv a.init_status) (error lnr_ealready) ≡ false)
    × (eq_error (from_status tv a.start_status) (error lnr_ealready) ≡ false)

-- A drawn nonce was not in the pool and is there now, and no other was put in or taken out.
abbrev pub IsFresh : List Nonce → Drawn → Type 0
IsFresh pool exhausted = ⊥
IsFresh pool (failed pool' next_id effects) = Unit
IsFresh pool (drawn n pool' next_id effects) =
    (is_valid n pool ≡ false) × ((m : Bytes) → is_valid m pool' ≡ (eq_bytes m n || is_valid m pool))

-- It does not depend on what was done outside.
prepend-IsFresh :
    (pool : List Nonce) (before : List (Effect Bytes)) (d : Drawn)
    → IsFresh pool d
    → IsFresh pool (prepend before d)
unfolding prepend
prepend-IsFresh pool before exhausted h = h
prepend-IsFresh pool before (failed pool' next_id effects) h = h
prepend-IsFresh pool before (drawn n pool' next_id effects) h = h

module _ (tv : String → ℤ) (random : ℕ → Option Bytes) (answers : ℕ → Answers) where
  started-IsTimely :
      (n : Bytes) (a : Answers) (next_id : ℕ)
      → IsTimely tv a
      → eq_error (Timer.start_timer tv n nonce_timeout a next_id Timer.new).2 (error lnr_ealready)
        ≡ false
  unfolding Timer.start_timer Timer.start Timer.new
  started-IsTimely n a next_id h = ground (arith, h.0, h.1)

  added-IsFresh :
      (n m : Bytes) (pool : List Nonce) (e : Nonce)
      → e.nonce ≡ n
      → any (holds m) (pool ++ e ∷ []) ≡ (eq_bytes m n || any (holds m) pool)
  added-IsFresh n m pool e h = rw (← h) (ground (arith, any-append (holds m) pool (e ∷ [])))

  settle-added :
      (n : Bytes) (pool pool' : List Nonce) (next_id : ℕ) (e : Error)
      (effects : List (Effect Bytes)) (again : List Nonce → ℕ → Drawn)
      → eq_error e (error lnr_ealready) ≡ false
      → IsFresh pool (drawn n pool' next_id effects)
      → IsFresh pool (settle tv random answers n (pool', next_id, e, effects) again)
  unfolding settle
  settle-added n pool pool' next_id e effects again h fresh = rw h (
      if_lem (IsFresh pool) (eq_error e (error lnr_ok)) (drawn n pool' next_id effects)
        (failed pool' next_id effects) (λ ok. fresh) (λ no_ok. tt))

  settle-IsFresh :
      (n : Bytes) (a : Answers) (next_id : ℕ) (pool : List Nonce) (again : List Nonce → ℕ → Drawn)
      → IsTimely tv a
      → (any (holds n) pool ≡ true → IsFresh pool (again pool next_id))
      → IsFresh pool
          (settle tv random answers n (NoncePool.add tv n nonce_timeout a next_id pool) again)
  unfolding NoncePool.add settle is_valid
  settle-IsFresh n a next_id pool again timely h = elim (Bool-cases (any (holds n) pool)) [
    | inl e ↦ rw e (prepend-IsFresh pool [] (again pool next_id) (h e))
    | inr e ↦
        let (t, next_id', error', effects) =
          Timer.start_timer tv n nonce_timeout a next_id Timer.new in
        rw e (
          settle-added n pool (pool ++ record { nonce = n; timer = t } ∷ []) next_id' error' effects
            again (started-IsTimely n a next_id timely)
            (e, λ m. added-IsFresh n m pool (record { nonce = n; timer = t }) refl))
  ]

  try-IsFresh :
      (o : Option Bytes) (i next_id : ℕ) (pool : List Nonce) (again : List Nonce → ℕ → Drawn)
      → IsTimely tv (answers i)
      → ((n : Bytes) → o ≡ some n → any (holds n) pool ≡ true → IsFresh pool (again pool next_id))
      → IsFresh pool (try tv random answers o i next_id pool again)
  unfolding try
  try-IsFresh none i next_id pool again timely h = tt
  try-IsFresh (some n) i next_id pool again timely h =
      settle-IsFresh n (answers i) next_id pool again timely (h n refl)

  draw-IsFresh :
      IsDistinct random
      → ((i : ℕ) → IsTimely tv (answers i))
      → (fuel i next_id : ℕ) (pool : List Nonce) → ((j : ℕ) → j < i → IsTaken random pool j)
      → length pool < i + fuel
      → IsFresh pool (draw tv random answers fuel i next_id pool)
  unfolding draw
  draw-IsFresh distinct timely zero i next_id pool taken enough =
      absurd (omega (arith, enough, taken-length random distinct i pool taken))
  draw-IsFresh distinct timely (suc fuel) i next_id pool taken enough =
      try-IsFresh (random i) i next_id pool _ (timely i) (λ n drew held.
        draw-IsFresh distinct timely fuel (suc i) next_id pool (extended n drew held)
          (omega (arith, enough)))
    where
      extended :
          (n : Bytes)
          → random i ≡ some n
          → any (holds n) pool ≡ true
          → (j : ℕ) → j < suc i
          → IsTaken random pool j
      extended n drew held j lt = elim (lt-cases j i lt) [
        | inl e ↦ rw e (n, drew, held)
        | inr l ↦ taken j l
      ]

  -- The loop for a nonce ends after at most one draw more than the pool has entries, if no text is
  -- drawn twice and libtv does not say of a fresh timer that it runs already. A nonce that it gives
  -- was not in the pool; then it is, and every other is there as before.
  pub draw_ends :
      (fuel next_id : ℕ) (pool : List Nonce)
      → IsDistinct random
      → ((i : ℕ) → IsTimely tv (answers i))
      → length pool < fuel
      → IsFresh pool (draw tv random answers fuel 0 next_id pool)
  draw_ends fuel next_id pool distinct timely enough =
      draw-IsFresh distinct timely fuel 0 next_id pool (λ j lt. absurd (omega (arith, lt)))
        (omega (arith, enough))
