-- ===== src/Examples/Pools.antt =====
-- The theorems about groups, pools and timers (src/group.cpp, src/socket_pool.h, src/nonce_pool.h,
-- src/timer_impl.cpp) at concrete inputs.
use Prim.Native.String.{String}
use linear_cpp.Prelude.{
  ℕ, ◌≡◌, refl, ◌+◌, ◌≤◌, ◌⊎◌, true, false, not, ◌&&◌, List, [], ◌∷◌, Bytes, codes, any,
  if◌then◌else◌, length, arith, some, none,
}
use linear_cpp.Prelude.Int.{ℤ, pos, negsuc, eq_ℤ, is_negative}
use linear_cpp.ErrorMap.{lnr_ok}
use linear_cpp.Error.{error, eq_error}
use linear_cpp.Group.{Groups}
use linear_cpp.Group.Membership.{member, IsWellFormed}
use linear_cpp.Group.History
use linear_cpp.Group.History.{joins, leaves, leaves_all, joined, run-member}
use linear_cpp.SocketPool.{SocketPool, new, set_max_limit, add, remove, clear}
use linear_cpp.SocketPool.Capacity
use linear_cpp.SocketPool.Capacity.{IsValid, held, adds, removes, run_limit, held-add, held-remove}
use linear_cpp.SocketPool.Clearing.{clear-member}
use linear_cpp.Timer
use linear_cpp.Timer.{TimerImpl, opens, started, stopped, start_timer}
use linear_cpp.Timer.Handles
use linear_cpp.Timer.Handles.{
  starts, stops_it, fires, opened, closed, running, run-new_balance, start_timer_outcome,
}
use linear_cpp.NoncePool.{is_valid}
use linear_cpp.NoncePool.SingleUse
use linear_cpp.NoncePool.SingleUse.{added, run_single_use}

abbrev tv : String → ℤ
tv name = negsuc 11

abbrev room : Bytes
room = codes "room"

abbrev visits : List History.Call
visits = joins room (pos 1) ∷ joins room (pos 2) ∷ leaves_all (pos 1) ∷ []

run-member_example : member room (pos 2) (History.run visits []) ≡ joined room (pos 2) visits false
run-member_example = run-member room (pos 2) visits

abbrev accepts : List Capacity.Call
accepts = adds (pos 1) ∷ adds (pos 2) ∷ adds (pos 1) ∷ adds (pos 3) ∷ removes (pos 2) ∷ []

run_limit_example :
    (length (Capacity.run accepts (set_max_limit 2 new)).pool ≤ 2)
    × ((id : ℤ) → held id (Capacity.run accepts (set_max_limit 2 new)) ≤ 1)
run_limit_example = run_limit 2 accepts (omega arith)

abbrev pool : SocketPool
pool = record { max = 3; pool = pos 1 ∷ pos 2 ∷ [] }

pool-IsValid : IsValid pool
pool-IsValid = record { within = λ h. omega arith; distinct = λ id. ground arith }

held-add_example : held (pos 3) (add (pos 3) pool).0 ≡ (
    if eq_ℤ (pos 3) (pos 3) && eq_error (add (pos 3) pool).1 (error lnr_ok)
    then 1
    else held (pos 3) pool)
held-add_example = held-add (pos 3) (pos 3) pool pool-IsValid

held-remove_example :
    held (pos 1) (remove (pos 1) pool)
    ≡ (if eq_ℤ (pos 1) (pos 1) && not (is_negative (pos 1)) then 0 else held (pos 1) pool)
held-remove_example = held-remove (pos 1) (pos 1) pool pool-IsValid

abbrev groups : Groups
groups = (room, pos 1 ∷ pos 3 ∷ []) ∷ []

groups-IsWellFormed : IsWellFormed groups
groups-IsWellFormed = record {
  names_ordered = (tt, tt);
  sets_ordered = (((refl, tt), (tt, tt)), tt);
}

clear-member_example :
    ((clear pool groups).0.pool ≡ [])
    × (member room (pos 1) (clear pool groups).1
        ≡ (not (any (eq_ℤ (pos 1)) pool.pool) && member room (pos 1) groups))
clear-member_example = clear-member room (pos 1) pool groups groups-IsWellFormed

abbrev granted : Timer.Answers
granted = record {
  event_allocated = true;
  allocated = true;
  init_status = pos 0;
  start_status = pos 0;
}

abbrev uses : List (Handles.Op ℕ)
uses = starts 5 100 granted ∷ starts 6 100 granted ∷ fires ∷ starts 7 100 granted ∷ stops_it ∷ []

run-new_balance_example :
    opened (Handles.run tv uses 0 Timer.new).1
    ≡ closed (Handles.run tv uses 0 Timer.new).1 + running (Handles.run tv uses 0 Timer.new).0.state
run-new_balance_example = run-new_balance tv uses 0

abbrev new_timer : TimerImpl ℕ
new_timer = record { id = negsuc 0; state = stopped; callback = none }

start_timer_outcome_example :
    ((start_timer tv 5 100 granted 0 new_timer).2 ≡ error lnr_ok)
      × (new_timer.state ≡ stopped)
      × ((start_timer tv 5 100 granted 0 new_timer).0.state ≡ started)
      × ((start_timer tv 5 100 granted 0 new_timer).0.callback ≡ some 5)
      × ((start_timer tv 5 100 granted 0 new_timer).3 ≡ opens 100 ∷ [])
    ⊎ (eq_error (start_timer tv 5 100 granted 0 new_timer).2 (error lnr_ok) ≡ false)
      × ((start_timer tv 5 100 granted 0 new_timer).0 ≡ new_timer)
      × (opened (start_timer tv 5 100 granted 0 new_timer).3 ≡ 0)
start_timer_outcome_example = start_timer_outcome tv 5 100 granted 0 new_timer

abbrev nonce : Bytes
nonce = codes "n1"

abbrev logins : List SingleUse.Call
logins =
    SingleUse.adds nonce 60000 granted 0
    ∷ SingleUse.removes nonce
    ∷ SingleUse.adds nonce 60000 granted 1
    ∷ SingleUse.expires nonce
    ∷ []

run_single_use_example :
    (is_valid nonce (SingleUse.run tv logins []) ≡ added tv nonce logins false)
    × (SingleUse.held nonce (SingleUse.run tv logins []) ≤ 1)
run_single_use_example = run_single_use tv nonce logins
