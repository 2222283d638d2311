-- ===== src/Log/Sinks.antt =====
-- Where messages go, and which files stay open, over any calls of the log, with clients and servers
-- that end (src/log.cpp, src/log_file.cpp, src/log_stderr.cpp, src/log_function.cpp).
use linear_cpp.Prelude.{
  ℕ, ◌+◌, ◌≡◌, refl, ap, ◌∙◌, Bool, List, [], ◌∷◌, ◌++◌, none, some, arith, count, count-append,
  leb, if◌then◌else◌, Bytes,
}
use linear_cpp.Auth.Fields.{take}
use linear_cpp.Log.{
  Level, rank, Log, initial, line, set_level, enable_stderr, enable_file, opened, enable_callback,
  disable_stderr, disable_file, close_file, disable_callback, colorize, disable_all, do_print,
  print, log, longest,
}
use linear_cpp.Log.Calls.{
  Call, sets_level, enables_stderr, disables_stderr, disables_file, disables_callback, ends,
  enables_file, enables_callback, colorizes, step, run, is_opens, is_closes, is_file, one,
  run-IsConsistent, initial-IsConsistent,
}
use linear_cpp.Log.Lines.{
  Carries, line-Carries, to_stderr, to_file, to_callback, stderr_lem, file_lem, callback_lem,
  silent,
}

-- After any calls that set the log up, and any clients and servers that ended, a message whose level
-- is within the level set, or its first 16383 bytes, goes once to each sink that is enabled and
-- nowhere else: a line with the date and the message to stderr, such a line to the file that is
-- open, and the message to the callback (if one other than NULL was given), in that order. A message
-- of a higher level goes nowhere.
pub log_outputs :
    (cs : List Call) (debug : Bool) (level : Level) (date message : Bytes)
    → let l = (run cs initial).0 in
      let buffer = take longest message in
      (text : Bytes) × (text' : Bytes) × Carries date buffer text
      × Carries date buffer text'
      × (log debug level date message l ≡ (
          if leb (rank level) (rank l.level)
          then to_stderr l.log_stderr text
            ++ (to_file l.file_sink.fp text' ++ to_callback l.callback buffer)
          else []))
unfolding log print
log_outputs cs debug level date message =
    let l = (run cs initial).0 in
    let k = run-IsConsistent cs initial initial-IsConsistent in
    let buffer = take longest message in
    (
      line l.stderr_sink.color debug level date buffer,
      line l.file_sink.color debug level date buffer,
      line-Carries l.stderr_sink.color debug level date buffer,
      line-Carries l.file_sink.color debug level date buffer,
      ap (λ t. if do_print level l then t else [])
            (rw
              (
                stderr_lem l debug level date buffer k,
                file_lem l debug level date buffer k,
                callback_lem l buffer k,
              )
              refl)
          ∙ silent l level _ _ buffer k,
    )

-- 1 for an EnableFile while the file `n` is open.
abbrev pub loses : ℕ → Call → Log → ℕ
loses n (enables_file fp) l = one (is_file n l.file_sink.fp)
loses n _ l = 0

pub lost : ℕ → List Call → Log → ℕ
lost n [] l = 0
lost n (c ∷ cs) l = loses n c l + lost n cs (step c l).0

abbrev IsKept : ℕ → Call → Log → Type 0
IsKept n c l =
    count (is_opens n) (step c l).1 + one (is_file n l.file_sink.fp)
    ≡ count (is_closes n) (step c l).1 + one (is_file n (step c l).0.file_sink.fp) + loses n c l

step-files : (n : ℕ) (c : Call) (l : Log) → IsKept n c l
unfolding step set_level enable_stderr enable_file opened enable_callback disable_stderr
    disable_file close_file disable_callback colorize disable_all
step-files n (sets_level level) l = ground arith
step-files n enables_stderr l = ground arith
step-files n disables_stderr l = ground arith
step-files n (enables_file none) l = ground arith
step-files n (enables_file (some fp)) l = ground arith
step-files n disables_file l = ground arith
step-files n (enables_callback callback) l = ground arith
step-files n disables_callback l = ground arith
step-files n (colorizes flag) l = ground arith
step-files n ends l = ground arith

files :
    (n : ℕ) (cs : List Call) (l : Log)
    → count (is_opens n) (run cs l).1 + one (is_file n l.file_sink.fp)
      ≡ count (is_closes n) (run cs l).1 + one (is_file n (run cs l).0.file_sink.fp) + lost n cs l
unfolding run lost
files n [] l = omega arith
files n (c ∷ cs) l = omega (
  arith,
  step-files n c l,
  files n cs (step c l).0,
  count-append (is_opens n) (step c l).1 (run cs (step c l).0).1,
  count-append (is_closes n) (step c l).1 (run cs (step c l).0).1,
)

-- Clients and servers may end meanwhile: each file that the calls opened is closed as often as it was
-- opened, but once less where it is the file of the log in the end, and once less for each call of
-- EnableFile while it was the open file of the log, which is never closed for that.
pub run_files :
    (n : ℕ) (cs : List Call)
    → count (is_opens n) (run cs initial).1
      ≡ count (is_closes n) (run cs initial).1
        + one (is_file n (run cs initial).0.file_sink.fp)
        + lost n cs initial
run_files n cs = omega (arith, files n cs initial)
