-- ===== src/Timer.antt =====
-- src/timer_impl.cpp and src/timer.cpp: one-shot timers on a handle of libtv. What malloc, the
-- allocation of the event and libtv answer is an argument; what the timer asks of libtv is a list of
-- calls. A timer's lock covers each operation, so an operation is one step.
pub mod Handles
use Prim.Native.String.{String}
use linear_cpp.Prelude.{
  ℕ, suc, ◌%◌, ◌^◌, Bool, true, false, List, [], ◌∷◌, ◌++◌, Option, none, some, if◌then◌else◌,
}
use linear_cpp.Prelude.Int.{ℤ, pos, negsuc, nonzero}
use linear_cpp.ErrorMap.{lnr_ok, lnr_ealready, lnr_enomem, lnr_einval}
use linear_cpp.Error.{Error, error, from_status, ne_error}

pub data State : Type 0 where
  stopped started : State

-- A callback with its argument, of a type `C` of the timer's owner.
pub record TimerImpl (C : Type 0) : Type 0 where
  pub id : ℤ
  pub state : State
  pub callback : Option C

-- What an operation does outside the timer: it opens a handle that runs out after a while, stops
-- it, closes it, frees a handle that it could not start, deletes the event that it did not hand
-- over, or makes the callback.
pub data Effect (C : Type 0) : Type 0 where
  opens : ℕ → Effect C
  stops closes frees_handle deletes_event : Effect C
  calls : C → Effect C

-- The answers that a start gets: of `new TimerEvent`, malloc, tv_timer_init and tv_timer_start.
pub record Answers : Type 0 where
  pub event_allocated : Bool
  pub allocated : Bool
  pub init_status : ℤ
  pub start_status : ℤ

-- The constructors.
unfoldable pub new : {C : Type 0} → TimerImpl C
new = record { id = negsuc 0; state = stopped; callback = none }

module _ (tv : String → ℤ) {C : Type 0} where
  start_stopped : C → ℕ → Answers → ℕ → TimerImpl C → TimerImpl C × ℕ × Error × List (Effect C)
  start_stopped callback timeout a next_id t =
      if a.allocated
      then if nonzero a.init_status
        then (t, next_id, from_status tv a.init_status, frees_handle ∷ [])
        else if nonzero a.start_status
        then (t, next_id, from_status tv a.start_status, frees_handle ∷ [])
        else (
          record { id = pos next_id; state = started; callback = some callback },
          suc next_id,
          error lnr_ok,
          opens timeout ∷ [],
        )
      else (t, next_id, error lnr_enomem, [])

  start_state :
      State → C → ℕ → Answers → ℕ → TimerImpl C → TimerImpl C × ℕ × Error × List (Effect C)
  unfolding start_stopped
  start_state started callback timeout a next_id t = (t, next_id, error lnr_ealready, [])
  start_state stopped callback timeout a next_id t = start_stopped callback timeout a next_id t

  -- `TimerImpl::Start`, with the counter of `Id()`. The timeout is an unsigned int.
  unfoldable pub start :
      C → ℕ → Answers → ℕ → TimerImpl C → TimerImpl C × ℕ × Error × List (Effect C)
  unfolding start_state
  start callback timeout a next_id t = start_state t.state callback timeout a next_id t

  -- `Timer::Start`: the event is allocated first, and deleted if the timer does not start.
  unfoldable pub start_timer :
      C → ℕ → Answers → ℕ → TimerImpl C → TimerImpl C × ℕ × Error × List (Effect C)
  start_timer callback timeout a next_id t =
      let (t', next_id', e, effects) = start callback timeout a next_id t in
      if a.event_allocated
      then if ne_error e (error lnr_ok)
        then (t', next_id', e, effects ++ deletes_event ∷ [])
        else (t', next_id', e, effects)
      else (t, next_id, error lnr_enomem, [])

module _ {C : Type 0} where
  unfoldable pub stop_state : State → TimerImpl C → TimerImpl C × List (Effect C)
  stop_state stopped t = (t, [])
  stop_state started t = (record t { state = stopped }, stops ∷ closes ∷ [])

  -- `TimerImpl::Stop`.
  unfoldable pub stop : TimerImpl C → TimerImpl C × List (Effect C)
  unfolding stop_state
  stop t = stop_state t.state t

  fire : Option C → List (Effect C)
  fire none = []
  fire (some c) = calls c ∷ []

  -- `TimerImpl::OnTimer`: the callback is made after the stop, and is the owner's step.
  unfoldable pub on_timer : TimerImpl C → TimerImpl C × List (Effect C)
  unfolding fire
  on_timer t = let (t', effects) = stop t in (t', effects ++ fire t'.callback)
