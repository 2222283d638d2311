-- ===== src/Timer/Handles.antt =====
-- No operation of a timer leaks a handle or closes it twice (src/timer_impl.cpp).
use Prim.Native.String.{String}
use linear_cpp.Prelude.{
  ℕ, ◌+◌, ◌≡◌, refl, ◌⊎◌, Bool, true, false, List, [], ◌∷◌, ◌++◌, some, arith, count, count-append,
}
use linear_cpp.Prelude.Int.{ℤ}
use linear_cpp.ErrorMap.{lnr_ok}
use linear_cpp.Error.{error, eq_error}
use linear_cpp.Error.RoundTrip.{from_status-ok}
use linear_cpp.Timer.{
  State, stopped, started, TimerImpl, Effect, opens, closes, calls, Answers, new, start,
  start_timer, stop, on_timer,
}

module _ {C : Type 0} where
  abbrev is_open : Effect C → Bool
  is_open (opens n) = true
  is_open _ = false

  abbrev is_close : Effect C → Bool
  is_close closes = true
  is_close _ = false

  abbrev is_call : Effect C → Bool
  is_call (calls c) = true
  is_call _ = false

  abbrev pub opened : List (Effect C) → ℕ
  opened = count is_open

  abbrev pub closed : List (Effect C) → ℕ
  closed = count is_close

  abbrev pub called : List (Effect C) → ℕ
  called = count is_call

abbrev pub running : State → ℕ
running stopped = 0
running started = 1

pub data Op (C : Type 0) : Type 0 where
  starts : C → ℕ → Answers → Op C
  stops_it fires : Op C

module _ (tv : String → ℤ) {C : Type 0} where
  step : Op C → ℕ → TimerImpl C → TimerImpl C × ℕ × List (Effect C)
  step (starts c n a) next_id t =
      let (t', next_id', e, effects) = start_timer tv c n a next_id t in (t', next_id', effects)
  step stops_it next_id t = let (t', effects) = stop t in (t', next_id, effects)
  step fires next_id t = let (t', effects) = on_timer t in (t', next_id, effects)

  -- Every operation in turn, with all effects in order.
  pub run : List (Op C) → ℕ → TimerImpl C → TimerImpl C × List (Effect C)
  run [] next_id t = (t, [])
  run (o ∷ os) next_id t =
      let (t', next_id', effects) = step o next_id t in
      let (t'', rest) = run os next_id' t' in (t'', effects ++ rest)

  step-balance :
      (o : Op C) (next_id : ℕ) (t : TimerImpl C)
      → opened (step o next_id t).2 + running t.state
        ≡ closed (step o next_id t).2 + running (step o next_id t).0.state
  unfolding step start_timer start stop on_timer
  step-balance (starts c n a) next_id t = ground arith
  step-balance stops_it next_id t = ground arith
  step-balance fires next_id t = ground arith

  run_balance :
      (os : List (Op C)) (next_id : ℕ) (t : TimerImpl C)
      → opened (run os next_id t).1 + running t.state
        ≡ closed (run os next_id t).1 + running (run os next_id t).0.state
  unfolding run
  run_balance [] next_id t = refl
  run_balance (o ∷ os) next_id t = omega (
    arith,
    step-balance o next_id t,
    run_balance os (step o next_id t).1 (step o next_id t).0,
    count-append is_open (step o next_id t).2 (run os (step o next_id t).1 (step o next_id t).0).1,
    count-append is_close (step o next_id t).2 (run os (step o next_id t).1 (step o next_id t).0).1,
  )

  -- After any calls of Start and Stop and any expiries, with any answers of malloc and libtv, a new
  -- timer has opened as many handles as it closed, and one more if it is started: none leaks, and
  -- none is closed twice.
  pub run-new_balance :
      (os : List (Op C)) (next_id : ℕ)
      → opened (run os next_id new).1
        ≡ closed (run os next_id new).1 + running (run os next_id new).0.state
  unfolding new
  run-new_balance os next_id = omega (arith, run_balance os next_id new)

  -- `Timer::Start` succeeds only on a stopped timer, and then opens one handle for the timeout and
  -- holds the callback; otherwise the timer is as it was and no handle is opened.
  pub start_timer_outcome :
      (c : C) (timeout : ℕ) (a : Answers) (next_id : ℕ) (t : TimerImpl C)
      → let (t', next_id', e, effects) = start_timer tv c timeout a next_id t in
        ((e ≡ error lnr_ok)
          × (t.state ≡ stopped)
          × (t'.state ≡ started)
          × (t'.callback ≡ some c)
          × (effects ≡ opens timeout ∷ []))
        ⊎ (eq_error e (error lnr_ok) ≡ false) × (t' ≡ t) × (opened effects ≡ 0)
  unfolding start_timer start
  start_timer_outcome c timeout a next_id t =
      ground (arith, from_status-ok tv a.init_status, from_status-ok tv a.start_status)
