-- ===== src/Group/History.antt =====
-- The groups of src/group.cpp against their meaning: which socket is in which group.
use linear_cpp.Prelude.{
  ◌≡◌, refl, ◌∙◌, ap, Bool, false, ◌&&◌, ◌||◌, not, List, [], ◌∷◌, Bytes, eq_bytes,
}
use linear_cpp.Prelude.Int.{ℤ, eq_ℤ}
use linear_cpp.Ordered
use linear_cpp.Ordered.{int_order, bytes_order}
use linear_cpp.Group.{Groups, get, join, leave, leave_all}
use linear_cpp.Group.Membership.{
  member, IsWellFormed, contains-nil, join-member, leave-member, leave_all-member,
}
use linear_cpp.Group.Order.{join-IsWellFormed, leave-IsWellFormed, leave_all-IsWellFormed}

pub data Call : Type 0 where
  joins leaves : Bytes → ℤ → Call
  leaves_all : ℤ → Call

abbrev step : Call → Groups → Groups
step (joins n s) groups = join n s groups
step (leaves n s) groups = leave n s groups
step (leaves_all s) groups = leave_all s groups

-- The groups after some calls, from the empty pool.
abbrev pub run : List Call → Groups → Groups
run [] groups = groups
run (c ∷ cs) groups = run cs (step c groups)

-- What a call means for the socket `t` and the group `n`.
abbrev meaning : Bytes → ℤ → Call → Bool → Bool
meaning n t (joins m s) b = (eq_bytes n m && eq_ℤ t s) || b
meaning n t (leaves m s) b = not (eq_bytes n m && eq_ℤ t s) && b
meaning n t (leaves_all s) b = not (eq_ℤ t s) && b

-- Read off the calls alone: a socket is in a group if it joined, and did not leave since.
abbrev pub joined : Bytes → ℤ → List Call → Bool → Bool
joined n t [] b = b
joined n t (c ∷ cs) b = joined n t cs (meaning n t c b)

step-IsWellFormed :
    (c : Call) (groups : Groups) → IsWellFormed groups → IsWellFormed (step c groups)
step-IsWellFormed (joins n s) groups w = join-IsWellFormed n s groups w
step-IsWellFormed (leaves n s) groups w = leave-IsWellFormed n s groups w
step-IsWellFormed (leaves_all s) groups w = leave_all-IsWellFormed s groups w

step-meaning :
    (n : Bytes) (t : ℤ) (c : Call) (groups : Groups)
    → IsWellFormed groups
    → member n t (step c groups) ≡ meaning n t c (member n t groups)
step-meaning n t (joins m s) groups w = join-member n m t s groups
step-meaning n t (leaves m s) groups w = leave-member n m t s groups w
step-meaning n t (leaves_all s) groups w = leave_all-member n t s groups w.sets_ordered

run-joined :
    (n : Bytes) (t : ℤ) (cs : List Call) (groups : Groups)
    → IsWellFormed groups
    → member n t (run cs groups) ≡ joined n t cs (member n t groups)
run-joined n t [] groups w = refl
run-joined n t (c ∷ cs) groups w =
    run-joined n t cs (step c groups) (step-IsWellFormed c groups w)
    ∙ ap (joined n t cs) (step-meaning n t c groups w)

empty-IsWellFormed : IsWellFormed []
empty-IsWellFormed = record { names_ordered = tt; sets_ordered = tt }

empty-member : (n : Bytes) (t : ℤ) → member n t [] ≡ false
unfolding get Ordered.Map.find
empty-member n t = contains-nil t

-- After any calls of Join, Leave and LeaveAll on the empty pool, `Get` of a group holds a socket
-- exactly if the last of those calls that was about both (or, for LeaveAll, about the socket) was
-- a Join.
pub run-member : (n : Bytes) (t : ℤ) (cs : List Call) → member n t (run cs []) ≡ joined n t cs false
run-member n t cs = run-joined n t cs [] empty-IsWellFormed ∙ ap (joined n t cs) (empty-member n t)

-- So the pool stays in order after any calls.
pub run-IsWellFormed :
    (cs : List Call) (groups : Groups) → IsWellFormed groups → IsWellFormed (run cs groups)
run-IsWellFormed [] groups w = w
run-IsWellFormed (c ∷ cs) groups w =
    run-IsWellFormed cs (step c groups) (step-IsWellFormed c groups w)
