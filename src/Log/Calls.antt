-- ===== src/Log/Calls.antt =====
-- Runs of the calls that set the log up, and of clients and servers that end (src/log.cpp and
-- src/handler_delegate.cpp), and what their sinks are then.
use linear_cpp.Prelude.{
  ◌==◌, ℕ, ◌≡◌, refl, Bool, true, false, List, [], ◌∷◌, ◌++◌, Option, none, some, arith,
  if◌then◌else◌,
}
use linear_cpp.Log.{
  Level, Log, initial, Effect, opens, closes, stderr, set_level, enable_stderr, enable_file, opened,
  enable_callback, disable_stderr, disable_file, close_file, disable_callback, colorize,
  disable_all,
}

pub data Call : Type 0 where
  sets_level : Level → Call
  enables_stderr disables_stderr disables_file disables_callback ends : Call
  enables_file enables_callback : Option ℕ → Call
  colorizes : Bool → Call

unfoldable pub step : Call → Log → Log × List Effect
step (sets_level level) l = (set_level level l, [])
step enables_stderr l = ((enable_stderr l).0, [])
step disables_stderr l = (disable_stderr l, [])
step (enables_file fp) l = let (l', ok, effects) = enable_file fp l in (l', effects)
step disables_file l = disable_file l
step (enables_callback callback) l = ((enable_callback callback l).0, [])
step disables_callback l = (disable_callback l, [])
step (colorizes flag) l = (colorize flag l, [])
step ends l = disable_all l

unfoldable pub run : List Call → Log → Log × List Effect
run [] l = (l, [])
run (c ∷ cs) l =
    let (l', effects) = step c l in let (l'', more) = run cs l' in (l'', effects ++ more)

abbrev pub is_some : Option ℕ → Bool
is_some none = false
is_some (some n) = true

-- An opening or a closing of the file `n`.
abbrev pub is_opens : ℕ → Effect → Bool
is_opens n (opens m) = m == n
is_opens n _ = false

abbrev pub is_closes : ℕ → Effect → Bool
is_closes n (closes m) = m == n
is_closes n _ = false

-- Is it the file `n`?
abbrev pub is_file : ℕ → Option ℕ → Bool
is_file n none = false
is_file n (some m) = m == n

-- Stderr's sink has the file of stderr and the other sink a file as its flag is set; a callback is
-- there only under its flag.
pub record IsConsistent (l : Log) : Type 0 where
  pub stderr_open : l.stderr_sink.fp ≡ (if l.log_stderr then some stderr else none)
  pub file_open : is_some l.file_sink.fp ≡ l.log_file
  pub callback_held : l.log_function ≡ false → l.callback ≡ none

step-IsConsistent : (c : Call) (l : Log) → IsConsistent l → IsConsistent (step c l).0
unfolding step set_level enable_stderr enable_file opened enable_callback disable_stderr
    disable_file close_file disable_callback colorize disable_all
step-IsConsistent (sets_level level) l k = record {
  stderr_open = k.stderr_open;
  file_open = k.file_open;
  callback_held = k.callback_held;
}
step-IsConsistent enables_stderr l k = record {
  stderr_open = refl;
  file_open = k.file_open;
  callback_held = k.callback_held;
}
step-IsConsistent disables_stderr l k = record {
  stderr_open = ground (arith, k.stderr_open);
  file_open = ground (arith, k.file_open);
  callback_held = ground (arith, k.callback_held);
}
step-IsConsistent (enables_file none) l k = record {
  stderr_open = k.stderr_open;
  file_open = refl;
  callback_held = k.callback_held;
}
step-IsConsistent (enables_file (some fp)) l k = record {
  stderr_open = k.stderr_open;
  file_open = refl;
  callback_held = k.callback_held;
}
step-IsConsistent disables_file l k = record {
  stderr_open = ground (arith, k.stderr_open);
  file_open = ground (arith, k.file_open);
  callback_held = ground (arith, k.callback_held);
}
step-IsConsistent (enables_callback callback) l k = record {
  stderr_open = k.stderr_open;
  file_open = k.file_open;
  callback_held = λ e. cc;
}
step-IsConsistent disables_callback l k = record {
  stderr_open = ground (arith, k.stderr_open);
  file_open = ground (arith, k.file_open);
  callback_held = ground (arith, k.callback_held);
}
step-IsConsistent (colorizes flag) l k = record {
  stderr_open = ground (arith, k.stderr_open);
  file_open = ground (arith, k.file_open);
  callback_held = ground (arith, k.callback_held);
}
step-IsConsistent ends l k = record {
  stderr_open = ground (arith, k.stderr_open);
  file_open = ground (arith, k.file_open);
  callback_held = ground (arith, k.callback_held);
}

pub run-IsConsistent : (cs : List Call) (l : Log) → IsConsistent l → IsConsistent (run cs l).0
unfolding run
run-IsConsistent [] l k = k
run-IsConsistent (c ∷ cs) l k = run-IsConsistent cs (step c l).0 (step-IsConsistent c l k)

pub initial-IsConsistent : IsConsistent initial
initial-IsConsistent = record { stderr_open = refl; file_open = refl; callback_held = λ e. refl }

abbrev pub one : Bool → ℕ
one true = 1
one false = 0
