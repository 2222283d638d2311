-- ===== src/Log.antt =====
-- src/log.cpp, src/log_file.cpp, src/log_stderr.cpp, src/log_function.cpp and include/linear/log.h: the
-- log, its level and its three sinks. The state of the process is passed as a value. What fopen and
-- the clock give is an argument, and a message is what vsnprintf makes of the format.
pub mod Calls
pub mod Lines
pub mod Sinks
use linear_cpp.Prelude.{
  ℕ, ◌+◌, ◌-◌, ◌*◌, ◌/◌, ◌%◌, Bool, true, false, ◌&&◌, ◌||◌, List, [], ◌∷◌, ◌++◌, Option, none,
  some, leb, ltb, if◌then◌else◌, Bytes, codes,
}
use linear_cpp.Auth.Fields.{take}
use linear_cpp.Any.{decimal}

-- `linear::log::Level`, by LINEAR_LOG_LEVEL_MAP.
pub data Level : Type 0 where
  log_off log_err log_warn log_info log_debug log_full : Level

-- The number of a level, and 1 more, so that that of LOG_OFF is 0.
abbrev pub rank : Level → ℕ
rank log_off = 0
rank log_err = 1
rank log_warn = 2
rank log_info = 3
rank log_debug = 4
rank log_full = 5

abbrev short_string : Level → Bytes
short_string log_off = []
short_string log_err = codes "ERR"
short_string log_warn = codes "WRN"
short_string log_info = codes "INF"
short_string log_debug = codes "DBG"
short_string log_full = codes "DBG"

abbrev color_of : Level → ℕ
color_of log_err = 31
color_of log_warn = 35
color_of log_info = 36
color_of _ = 39

-- A `LogFile`, and the `LogStderr` that is one: its file, and whether it colors.
pub record LogFile : Type 0 where
  pub fp : Option ℕ
  pub color : Bool

-- The variables of src/log.cpp with the three objects. A callback stands by a number.
pub record Log : Type 0 where
  pub level : Level
  pub log_stderr : Bool
  pub log_file : Bool
  pub log_function : Bool
  pub stderr_sink : LogFile
  pub file_sink : LogFile
  pub callback : Option ℕ

abbrev pub initial : Log
initial = record {
  level = log_off;
  log_stderr = false;
  log_file = false;
  log_function = false;
  stderr_sink = record { fp = none; color = false };
  file_sink = record { fp = none; color = false };
  callback = none;
}

-- What the log does outside: a file is opened or closed, or a text goes to a file or a callback.
pub data Effect : Type 0 where
  opens closes : ℕ → Effect
  writes calls : ℕ → Bytes → Effect

-- The file of `stderr`.
abbrev pub stderr : ℕ
stderr = 2

unfoldable pub set_level : Level → Log → Log
set_level level l = record l { level = level }

unfoldable pub enable_stderr : Log → Log × Bool
enable_stderr l = (
  record l { log_stderr = true; stderr_sink = record (l.stderr_sink) { fp = some stderr } },
  true,
)

opened : Option ℕ → Log → Log × Bool × List Effect
opened none l =
    (record l { log_file = false; file_sink = record (l.file_sink) { fp = none } }, false, [])
opened (some fp) l = (
  record l { log_file = true; file_sink = record (l.file_sink) { fp = some fp } },
  true,
  opens fp ∷ [],
)

-- `EnableFile`, with what fopen gives. A file that was open before is not closed.
unfoldable pub enable_file : Option ℕ → Log → Log × Bool × List Effect
unfolding opened
enable_file fp l = opened fp l

-- `EnableCallback`; the pointer may be NULL.
unfoldable pub enable_callback : Option ℕ → Log → Log × Bool
enable_callback callback l = (record l { log_function = true; callback = callback }, true)

unfoldable pub disable_stderr : Log → Log
disable_stderr l =
    if l.log_stderr
    then record l { log_stderr = false; stderr_sink = record (l.stderr_sink) { fp = none } }
    else l

-- `LogFile::Disable`.
unfoldable pub close_file : LogFile → LogFile × List Effect
close_file f = elim (f.fp) [ none ↦ (f, []) | some fp ↦ (record f { fp = none }, closes fp ∷ []) ]

unfoldable pub disable_file : Log → Log × List Effect
disable_file l =
    let (f, effects) = close_file l.file_sink in
    if l.log_file then (record l { log_file = false; file_sink = f }, effects) else (l, [])

unfoldable pub disable_callback : Log → Log
disable_callback l =
    if l.log_function then record l { log_function = false; callback = none } else l

-- `~HandlerDelegate`: a client or a server that ends turns off all sinks.
unfoldable pub disable_all : Log → Log × List Effect
unfolding disable_stderr disable_file disable_callback
disable_all l =
    let (l', effects) = disable_file (disable_stderr l) in (disable_callback l', effects)

unfoldable pub colorize : Bool → Log → Log
colorize flag l =
    if l.log_stderr then record l { stderr_sink = record (l.stderr_sink) { color = flag } } else l

unfoldable pub do_print : Level → Log → Bool
do_print level l =
    leb (rank level) (rank l.level) && (l.log_stderr || (l.log_file || l.log_function))

-- The escape sequence of a color or a mode.
abbrev sequence : ℕ → Bytes
sequence n = 27 ∷ b'[' ∷ (decimal 3 n ++ b'm' ∷ [])

-- The line that `LogFile::Write` writes, in a build without _LINEAR_LOG_DEBUG_.
unfoldable pub line : Bool → Bool → Level → Bytes → Bytes → Bytes
line color debug level date message =
    let text =
      date ++ (codes ": [" ++ (short_string level ++ (codes "] " ++ (message ++ 10 ∷ [])))) in
    if color
    then (if debug then sequence 7 else [])
      ++ (sequence (color_of level)
          ++ (text ++ (sequence 39 ++ (if debug then sequence 0 else []))))
    else text

-- `LogFile::Write`.
unfoldable pub write : LogFile → Bool → Level → Bytes → Bytes → List Effect
write f debug level date message = elim (f.fp) [
  | none ↦ []
  | some fp ↦ writes fp (line f.color debug level date message) ∷ []
]

-- `LogFunction::Write`.
unfoldable pub call : Option ℕ → Bytes → List Effect
call none message = []
call (some callback) message = calls callback message ∷ []

-- LOG_BUFSIZ, less the final zero byte that vsnprintf writes.
abbrev pub longest : ℕ
longest = 16383

-- `Print`, with the whole message, of which the buffer takes the beginning.
unfoldable pub print : Bool → Level → Bytes → Bytes → Log → List Effect
unfolding write call
print debug level date message l =
    let buffer = take longest message in
    (if l.log_stderr then write l.stderr_sink debug level date buffer else [])
    ++ ((if l.log_file then write l.file_sink debug level date buffer else [])
        ++ (if l.log_function then call l.callback buffer else []))

-- LINEAR_LOG. `debug` is false there; true is what LINEAR_DEBUG passes in the builds that have it.
unfoldable pub log : Bool → Level → Bytes → Bytes → Log → List Effect
unfolding print do_print
log debug level date message l = if do_print level l then print debug level date message l else []

-- A time of day as localtime_r and gettimeofday give it.
pub record Time : Type 0 where
  pub year : ℕ
  pub month : ℕ
  pub day : ℕ
  pub hour : ℕ
  pub minute : ℕ
  pub second : ℕ
  pub usec : ℕ

abbrev two : ℕ → Bytes
two n = if ltb n 10 then b'0' ∷ decimal 20 n else decimal 20 n

abbrev three : ℕ → Bytes
three n = if ltb n 100 then b'0' ∷ two n else decimal 20 n

-- `GetDateTime`; `none`: a call of the clock fails.
unfoldable pub get_date_time : Option Time → Bytes
get_date_time none = codes "ERR: fail to get date"
get_date_time (some t) =
    decimal 20 (t.year + 1900)
    ++ (b'-'
        ∷ (two (t.month + 1)
            ++ (b'-'
                ∷ (two t.day
                    ++ (b' '
                        ∷ (two t.hour
                            ++ (b':'
                                ∷ (two t.minute
                                    ++ (b':'
                                        ∷ (two t.second ++ (b'.' ∷ three (t.usec / 1000))))))))))))
