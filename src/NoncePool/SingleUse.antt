-- ===== src/NoncePool/SingleUse.antt =====
-- A nonce is accepted from its creation to its first use or its expiry (src/nonce_pool.h).
use Prim.Native.String.{String}
use linear_cpp.Prelude.{
  ℕ, ◌≤◌, ◌≡◌, refl, ◌∙◌, Bool, false, ◌&&◌, ◌||◌, not, List, [], ◌∷◌, arith, if◌then◌else◌,
  erase_first, count, count-append, count-erase_first, count-zero-any, Bytes, eq_bytes,
  eq_bytes_iff, eq_bytes_refl, Bool-cases, inl, inr,
}
use linear_cpp.Prelude.Int.{ℤ}
use linear_cpp.Timer
use linear_cpp.Timer.{Answers}
use linear_cpp.NoncePool.{Nonce, holds, is_valid, add, stop_entry, remove, on_timer}

-- The number of entries of a nonce.
abbrev pub held : Bytes → List Nonce → ℕ
held nonce pool = count (holds nonce) pool

-- No nonce stands in the pool twice.
abbrev pub IsDistinct : List Nonce → Type 0
IsDistinct pool = (nonce : Bytes) → held nonce pool ≤ 1

pub held-is_valid :
    (m : Bytes) (pool : List Nonce)
    → held m pool ≤ 1
    → held m pool ≡ (if is_valid m pool then 1 else 0)
unfolding is_valid
held-is_valid m [] h = refl
held-is_valid m (n ∷ pool) h = ground (arith, held-is_valid m pool, count-zero-any (holds m) pool)

held-erase_other :
    (m n : Bytes) (pool : List Nonce)
    → eq_bytes m n ≡ false
    → held m (erase_first (holds n) pool) ≡ held m pool
held-erase_other m n [] h = refl
held-erase_other m n (e ∷ pool) h = ground (
  arith,
  eq_bytes_iff m e.nonce,
  eq_bytes_iff n e.nonce,
  eq_bytes_iff m n,
  held-erase_other m n pool h,
)

held-stop_entry : (m n : Bytes) (pool : List Nonce) → held m (stop_entry n pool) ≡ held m pool
unfolding stop_entry
held-stop_entry m n [] = refl
held-stop_entry m n (e ∷ pool) = ground (arith, held-stop_entry m n pool)

pub held-remove_self :
    (n : Bytes) (pool : List Nonce) → held n pool ≤ 1 → held n (remove n pool).0 ≡ 0
unfolding remove is_valid
held-remove_self n pool h = ground (arith, count-erase_first (holds n) pool, held-is_valid n pool h)

held-remove :
    (m n : Bytes) (pool : List Nonce)
    → held m pool ≤ 1
    → held m (remove n pool).0 ≡ (if eq_bytes m n then 0 else held m pool)
held-remove m n pool h = elim (Bool-cases (eq_bytes m n)) [
  | inl e ↦ let p = (eq_bytes_iff m n).0 e in rw e (rw p (held-remove_self n pool (rw p at h)))
  | inr e ↦ rw e (unfold remove in held-erase_other m n pool e)
]

held-on_timer :
    (m n : Bytes) (pool : List Nonce)
    → held m pool ≤ 1
    → held m (on_timer n pool).0 ≡ (if eq_bytes m n then 0 else held m pool)
unfolding on_timer
held-on_timer m n pool h =
    ground (arith, held-stop_entry m n pool, held-remove m n (stop_entry n pool))

pub data Call : Type 0 where
  adds : Bytes → ℕ → Answers → ℕ → Call
  removes expires : Bytes → Call

module _ (tv : String → ℤ) where
  -- The entry that `Add` makes.
  abbrev fresh : Bytes → ℕ → ℕ → Answers → Nonce
  fresh n timeout next_id a = record {
    nonce = n;
    timer = (Timer.start_timer tv n timeout a next_id Timer.new).0;
  }

  held-add_self :
      (n : Bytes) (timeout next_id : ℕ) (a : Answers) (pool : List Nonce)
      → held n pool ≤ 1
      → held n (add tv n timeout a next_id pool).0 ≡ 1
  unfolding add is_valid
  held-add_self n timeout next_id a pool h = ground (
    arith,
    eq_bytes_refl n,
    held-is_valid n pool h,
    count-append (holds n) pool (fresh n timeout next_id a ∷ []),
  )

  held-add_other :
      (m n : Bytes) (timeout next_id : ℕ) (a : Answers) (pool : List Nonce)
      → eq_bytes m n ≡ false
      → held m (add tv n timeout a next_id pool).0 ≡ held m pool
  unfolding add
  held-add_other m n timeout next_id a pool h =
      ground (arith, count-append (holds m) pool (fresh n timeout next_id a ∷ []))

  held-add :
      (m n : Bytes) (timeout next_id : ℕ) (a : Answers) (pool : List Nonce)
      → held m pool ≤ 1
      → held m (add tv n timeout a next_id pool).0 ≡ (if eq_bytes m n then 1 else held m pool)
  held-add m n timeout next_id a pool h = elim (Bool-cases (eq_bytes m n)) [
    | inl e ↦
        let p = (eq_bytes_iff m n).0 e in
        rw e (rw p (held-add_self n timeout next_id a pool (rw p at h)))
    | inr e ↦ rw e (held-add_other m n timeout next_id a pool e)
  ]

  abbrev pub step : Call → List Nonce → List Nonce
  step (adds n timeout a next_id) pool = (add tv n timeout a next_id pool).0
  step (removes n) pool = (remove n pool).0
  step (expires n) pool = (on_timer n pool).0

  abbrev pub run : List Call → List Nonce → List Nonce
  run [] pool = pool
  run (c ∷ cs) pool = run cs (step c pool)

  -- How many entries of `m` a call leaves, of so many before.
  abbrev meaning : Bytes → Call → ℕ → ℕ
  meaning m (adds n timeout a next_id) k = if eq_bytes m n then 1 else k
  meaning m (removes n) k = if eq_bytes m n then 0 else k
  meaning m (expires n) k = if eq_bytes m n then 0 else k

  -- Is the last of the calls about this nonce an Add? `b` says how it stood before them.
  abbrev pub added : Bytes → List Call → Bool → Bool
  added m [] b = b
  added m (adds n timeout a next_id ∷ cs) b = added m cs (eq_bytes m n || b)
  added m (removes n ∷ cs) b = added m cs (not (eq_bytes m n) && b)
  added m (expires n ∷ cs) b = added m cs (not (eq_bytes m n) && b)

  held-step :
      (m : Bytes) (c : Call) (pool : List Nonce)
      → held m pool ≤ 1
      → held m (step c pool) ≡ meaning m c (held m pool)
  held-step m (adds n timeout a next_id) pool h = held-add m n timeout next_id a pool h
  held-step m (removes n) pool h = held-remove m n pool h
  held-step m (expires n) pool h = held-on_timer m n pool h

  meaning-le : (m : Bytes) (c : Call) (k : ℕ) → k ≤ 1 → meaning m c k ≤ 1
  meaning-le m c k h = ground arith

  step-IsDistinct : (c : Call) (pool : List Nonce) → IsDistinct pool → IsDistinct (step c pool)
  step-IsDistinct c pool h m =
      omega (arith, held-step m c pool (h m), meaning-le m c (held m pool) (h m))

  is_valid-step :
      (m : Bytes) (c : Call) (cs : List Call) (pool : List Nonce)
      → IsDistinct pool
      → added m cs (is_valid m (step c pool)) ≡ added m (c ∷ cs) (is_valid m pool)
  is_valid-step m c cs pool h = ground (
    arith,
    held-step m c pool (h m),
    held-is_valid m pool (h m),
    held-is_valid m (step c pool) (step-IsDistinct c pool h m),
  )

  run-added :
      (m : Bytes) (cs : List Call) (pool : List Nonce)
      → IsDistinct pool
      → (is_valid m (run cs pool) ≡ added m cs (is_valid m pool)) × (held m (run cs pool) ≤ 1)
  run-added m [] pool h = (refl, h m)
  run-added m (c ∷ cs) pool h =
      let ih = run-added m cs (step c pool) (step-IsDistinct c pool h) in
      (ih.0 ∙ is_valid-step m c cs pool h, ih.1)

  -- After any calls of Add and Remove and any expiries on the empty pool, a nonce is valid exactly
  -- if the last of those about it is an Add; so one Remove, or the expiry, ends it until it is
  -- given out anew. No nonce stands in the pool twice.
  pub run_single_use :
      (m : Bytes) (cs : List Call)
      → (is_valid m (run cs []) ≡ added m cs false) × (held m (run cs []) ≤ 1)
  unfolding is_valid
  run_single_use m cs = run-added m cs [] (λ n. omega arith)
