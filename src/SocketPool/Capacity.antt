-- ===== src/SocketPool/Capacity.antt =====
-- The pool's limit and the identity of its sockets (src/socket_pool.h).
use linear_cpp.Prelude.{
  ℕ, ◌≤◌, ◌<◌, ◌≡◌, refl, ◌∙◌, false, List, [], ◌∷◌, arith, length, length-append, any, erase_first,
  count, count-append, count-erase_first, length-erase_first, count-zero-any, not, ◌&&◌,
  if◌then◌else◌,
}
use linear_cpp.Prelude.Int.{ℤ, eq_ℤ, eq_ℤ_iff, is_negative}
use linear_cpp.ErrorMap.{lnr_ok}
use linear_cpp.Error.{error, eq_error}
use linear_cpp.SocketPool.{SocketPool, new, set_max_limit, add, remove}

-- The number of entries of an id.
abbrev pub held : ℤ → SocketPool → ℕ
held id p = count (eq_ℤ id) p.pool

count-erase_other :
    (j id : ℤ) (xs : List ℤ)
    → eq_ℤ j id ≡ false
    → count (eq_ℤ j) (erase_first (eq_ℤ id) xs) ≡ count (eq_ℤ j) xs
count-erase_other j id [] h = refl
count-erase_other j id (x ∷ xs) h =
    ground (arith, eq_ℤ_iff j x, eq_ℤ_iff id x, eq_ℤ_iff j id, count-erase_other j id xs)

-- Within the limit, if there is one, and no socket twice.
pub record IsValid (p : SocketPool) : Type 0 where
  pub within : 0 < p.max → length p.pool ≤ p.max
  pub distinct : (id : ℤ) → held id p ≤ 1

count-none : (id : ℤ) (xs : List ℤ) → any (eq_ℤ id) xs ≡ false → count (eq_ℤ id) xs ≡ 0
count-none id [] h = refl
count-none id (x ∷ xs) h = ground (arith, count-none id xs)

within-add : (id : ℤ) (p : SocketPool) → IsValid p → 0 < p.max → length (add id p).0.pool ≤ p.max
unfolding add
within-add id p v h = ground (arith, v.within h, length-append p.pool (id ∷ []))

pub max-add : (id : ℤ) (p : SocketPool) → (add id p).0.max ≡ p.max
unfolding add
max-add id p = ground arith

-- What `Add` does to the entries of every id in a valid pool: it leaves one entry of its own id if it
-- answers LNR_OK, and changes nothing else.
pub held-add :
    (j id : ℤ) (p : SocketPool)
    → IsValid p
    → held j (add id p).0
      ≡ (if eq_ℤ j id && eq_error (add id p).1 (error lnr_ok) then 1 else held j p)
unfolding add
held-add j id p v = ground (
  arith,
  v.distinct j,
  count-append (eq_ℤ j) p.pool (id ∷ []),
  count-none id p.pool,
  count-zero-any (eq_ℤ j) p.pool,
  eq_ℤ_iff j id,
)

pub add-IsValid : (id : ℤ) (p : SocketPool) → IsValid p → IsValid (add id p).0
add-IsValid id p v = record {
  within = λ h. ground (arith, within-add id p v, max-add id p);
  distinct = λ j. ground (arith, held-add j id p v, v.distinct j);
}

-- `Remove` of an id that is not negative takes its entries out, in a valid pool, and no others; of a
-- negative id it changes nothing.
pub held-remove :
    (j id : ℤ) (p : SocketPool)
    → IsValid p
    → held j (remove id p) ≡ (if eq_ℤ j id && not (is_negative id) then 0 else held j p)
unfolding remove
held-remove j id p v = ground (
  arith,
  v.distinct j,
  count-erase_first (eq_ℤ j) p.pool,
  count-erase_other j id p.pool,
  count-zero-any (eq_ℤ j) p.pool,
  count-none j p.pool,
  eq_ℤ_iff j id,
)

length-remove : (id : ℤ) (p : SocketPool) → length (remove id p).pool ≤ length p.pool
unfolding remove
length-remove id p = ground (arith, length-erase_first (eq_ℤ id) p.pool)

pub max-remove : (id : ℤ) (p : SocketPool) → (remove id p).max ≡ p.max
unfolding remove
max-remove id p = ground arith

pub remove-IsValid : (id : ℤ) (p : SocketPool) → IsValid p → IsValid (remove id p)
remove-IsValid id p v = record {
  within = λ h. ground (arith, length-remove id p, max-remove id p, v.within);
  distinct = λ j. ground (arith, held-remove j id p v, v.distinct j);
}

pub data Call : Type 0 where
  adds removes : ℤ → Call

abbrev pub step : Call → SocketPool → SocketPool
step (adds id) p = (add id p).0
step (removes id) p = remove id p

abbrev pub run : List Call → SocketPool → SocketPool
run [] p = p
run (c ∷ cs) p = run cs (step c p)

step-IsValid : (c : Call) (p : SocketPool) → IsValid p → IsValid (step c p)
step-IsValid (adds id) p v = add-IsValid id p v
step-IsValid (removes id) p v = remove-IsValid id p v

run-IsValid : (cs : List Call) (p : SocketPool) → IsValid p → IsValid (run cs p)
run-IsValid [] p v = v
run-IsValid (c ∷ cs) p v = run-IsValid cs (step c p) (step-IsValid c p v)

max-run : (cs : List Call) (p : SocketPool) → (run cs p).max ≡ p.max
max-run [] p = refl
max-run (adds id ∷ cs) p = max-run cs (add id p).0 ∙ max-add id p
max-run (removes id ∷ cs) p = max-run cs (remove id p) ∙ max-remove id p

pub new-IsValid : (max : ℕ) → IsValid (set_max_limit max new)
unfolding set_max_limit new
new-IsValid max = record { within = λ h. omega arith; distinct = λ id. omega arith }

pub max-set : (max : ℕ) → (set_max_limit max new).max ≡ max
unfolding set_max_limit
max-set max = refl

-- A pool that was given a positive limit holds at most that many sockets, and each at most once,
-- after any calls of Add and Remove, the refused ones included.
pub run_limit :
    (max : ℕ) (cs : List Call)
    → 0 < max
    → (length (run cs (set_max_limit max new)).pool ≤ max)
      × ((id : ℤ) → held id (run cs (set_max_limit max new)) ≤ 1)
run_limit max cs h =
    let v = run-IsValid cs (set_max_limit max new) (new-IsValid max) in
    (ground (arith, v.within, max-run cs (set_max_limit max new), max-set max), v.distinct)
