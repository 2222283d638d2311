-- ===== src/Log/Lines.antt =====
-- What is written for a message (src/log_file.cpp, src/log_stderr.cpp, src/log_function.cpp).
use linear_cpp.Prelude.{
  codes, sym, append_assoc, ℕ, ◌≡◌, ap, ◌∙◌, Bool, true, false, List, [], ◌∷◌, ◌++◌, Option, none,
  some, arith, leb, if◌then◌else◌, Bytes,
}
use linear_cpp.Log.{
  Level, rank, LogFile, Log, Effect, writes, calls, stderr, line, sequence, color_of, short_string,
  do_print, write, call,
}
use linear_cpp.Log.Calls.{IsConsistent}

-- Somewhere the date stands, and behind it the message.
abbrev pub Carries : Bytes → Bytes → Bytes → Type 0
Carries date message text =
    (before : Bytes) × (between : Bytes) × (behind : Bytes) × (text
      ≡ before ++ (date ++ (between ++ (message ++ behind))))

Carries-text :
    (date a b c message d : Bytes)
    → Carries date message (date ++ (a ++ (b ++ (c ++ (message ++ d)))))
Carries-text date a b c message d = (
  [],
  a ++ (b ++ c),
  d,
  ap (λ t. date ++ t)
      (ap (λ t. a ++ t) (sym (append_assoc b c (message ++ d)))
        ∙ sym (append_assoc a (b ++ c) (message ++ d))),
)

Carries-around :
    (date message x y text z : Bytes)
    → Carries date message text
    → Carries date message (x ++ (y ++ (text ++ z)))
Carries-around date message x y text z (before, between, behind, e) = (
  x ++ (y ++ before),
  between,
  behind ++ z,
  ap (λ t. x ++ (y ++ (t ++ z))) e
      ∙ ap (λ t. x ++ (y ++ t))
          (append_assoc before (date ++ (between ++ (message ++ behind))) z
            ∙ ap (λ t. before ++ t)
                (append_assoc date (between ++ (message ++ behind)) z
                  ∙ ap (λ t. date ++ t)
                      (append_assoc between (message ++ behind) z
                        ∙ ap (λ t. between ++ t) (append_assoc message behind z))))
      ∙ ap (λ t. x ++ t) (sym (append_assoc y before _))
      ∙ sym (append_assoc x (y ++ before) _),
)

pub line-Carries :
    (color debug : Bool) (level : Level) (date message : Bytes)
    → Carries date message (line color debug level date message)
unfolding line
line-Carries true debug level date message =
    Carries-around date message (if debug then sequence 7 else []) (sequence (color_of level))
      (line false debug level date message) (sequence 39 ++ (if debug then sequence 0 else []))
      (Carries-text date (codes ": [") (short_string level) (codes "] ") message (10 ∷ []))
line-Carries false debug level date message =
    Carries-text date (codes ": [") (short_string level) (codes "] ") message (10 ∷ [])

-- What goes to each sink.
abbrev pub to_stderr : Bool → Bytes → List Effect
to_stderr true text = writes stderr text ∷ []
to_stderr false text = []

abbrev pub to_file : Option ℕ → Bytes → List Effect
to_file none text = []
to_file (some n) text = writes n text ∷ []

abbrev pub to_callback : Option ℕ → Bytes → List Effect
to_callback none message = []
to_callback (some n) message = calls n message ∷ []

write_lem :
    (f : LogFile) (debug : Bool) (level : Level) (date message : Bytes)
    → write f debug level date message ≡ to_file f.fp (line f.color debug level date message)
unfolding write
write_lem f debug level date message = ground arith

pub stderr_lem :
    (l : Log) (debug : Bool) (level : Level) (date message : Bytes)
    → IsConsistent l
    → (if l.log_stderr then write l.stderr_sink debug level date message else [])
      ≡ to_stderr l.log_stderr (line l.stderr_sink.color debug level date message)
stderr_lem l debug level date message k =
    ground (arith, write_lem l.stderr_sink debug level date message, k.stderr_open)

pub file_lem :
    (l : Log) (debug : Bool) (level : Level) (date message : Bytes)
    → IsConsistent l
    → (if l.log_file then write l.file_sink debug level date message else [])
      ≡ to_file l.file_sink.fp (line l.file_sink.color debug level date message)
file_lem l debug level date message k =
    ground (arith, write_lem l.file_sink debug level date message, k.file_open)

pub callback_lem :
    (l : Log) (message : Bytes)
    → IsConsistent l
    → (if l.log_function then call l.callback message else []) ≡ to_callback l.callback message
unfolding call
callback_lem l message k = ground (arith, k.callback_held)

-- Without a sink nothing goes out.
pub silent :
    (l : Log) (level : Level) (text text' message : Bytes)
    → IsConsistent l
    → (if do_print level l
        then to_stderr l.log_stderr text
          ++ (to_file l.file_sink.fp text' ++ to_callback l.callback message)
        else [])
      ≡ (if leb (rank level) (rank l.level)
          then to_stderr l.log_stderr text
            ++ (to_file l.file_sink.fp text' ++ to_callback l.callback message)
          else [])
unfolding do_print
silent l level text text' message k = ground (arith, k.file_open, k.callback_held)
