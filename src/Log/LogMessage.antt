-- ===== src/Log/LogMessage.antt =====
-- log/LogMessage.h and log/LogMessage.cpp: one log line, from the constructor of DLogMessage or
-- LogMessage to its destructor. `local_time` is localtime_r with the snprintf of a second, `print_us`
-- is LogFormat with ".%06d ", and `strerror` is strerror_tl. The stream is Log/LogStream.
pub mod Base
pub mod Line
mod Tests
use libiak.Prelude.{
  ℕ, suc, Bool, true, false, List, [], ◌∷◌, ◌++◌, Option, none, some, drop, ◌==◌, if◌then◌else◌, ℤ,
  pos, abs, codes,
}
use libiak.Log.Logging.{slash, last_position}
use libiak.Log.LogStream.{LogStream, new_stream, Item, integer, character, string, put_all}

-- enum class LogLevel
pub data LogLevel : Type 0 where
  trace debug info warn error fatal : LogLevel

-- LogLevelName
abbrev pub level_name : LogLevel → List ℕ
level_name trace = codes "TRACE "
level_name debug = codes "DEBUG "
level_name info = codes "INFO  "
level_name warn = codes "WARN  "
level_name error = codes "ERROR "
level_name fatal = codes "FATAL "

abbrev pub is_fatal : LogLevel → Bool
is_fatal fatal = true
is_fatal trace = false
is_fatal debug = false
is_fatal info = false
is_fatal warn = false
is_fatal error = false

-- t_time and t_lastSecond of a thread
pub record TimeCache : Type 0 where
  pub time : List ℕ
  pub last_second : ℕ

abbrev pub new_cache : TimeCache
new_cache = record { time = []; last_second = 0 }

-- What the constructors do with the time: `if (seconds.count() != t_lastSecond) { … }`
unfoldable pub refresh : (ℕ → List ℕ) → ℕ → TimeCache → TimeCache
refresh local_time seconds c =
    if seconds == c.last_second
    then c
    else record { time = local_time seconds; last_second = seconds }

-- class DLogMessage, less its logger
pub record DLogMessage : Type 0 where
  pub stream : LogStream
  pub filename : List ℕ
  pub line : ℤ
  pub level : LogLevel

-- class LogMessage, less its logger
pub record LogMessage : Type 0 where
  pub stream : LogStream

-- The file name behind its last slash, as the destructor of DLogMessage finds it with strrchr.
abbrev pub behind : List ℕ → Option ℕ → List ℕ
behind filename none = filename
behind filename (some i) = drop (suc i) filename

unfoldable pub base_name : List ℕ → List ℕ
base_name filename = behind filename (last_position slash filename)

-- What a destructor does: the text goes to the logger, or to stdout if there is none; a fatal line is
-- flushed, and the program aborted.
pub record Written : Type 0 where
  pub to_logger : Bool
  pub text : List ℕ
  pub flushed : Bool
  pub aborted : Bool

module _ {ℓ} {D : Type ℓ} (print_double : D → List ℕ) (local_time print_us : ℕ → List ℕ) where
  -- stream_ << t_time << us.data() << LogLevelName[level]
  abbrev pub heading : LogLevel → ℕ → TimeCache → List (Item D)
  heading level us c = string c.time ∷ string (print_us us) ∷ string (level_name level) ∷ []

  -- DLogMessage::DLogMessage(logger, filename, line, level)
  unfoldable pub new_message : List ℕ → ℤ → LogLevel → ℕ → ℕ → TimeCache → DLogMessage × TimeCache
  unfolding refresh
  new_message filename line level seconds us c =
      let c' = refresh local_time seconds c in
      (
        record {
          stream = put_all print_double (heading level us c') new_stream;
          filename = filename;
          line = line;
          level = level;
        },
        c',
      )

  -- What the user's `<<` puts behind the heading.
  abbrev pub put_into : List (Item D) → DLogMessage → DLogMessage
  put_into items m = record m { stream = put_all print_double items m.stream }

  -- DLogMessage::DLogMessage(logger, filename, line, level, func)
  unfoldable pub new_in_function :
      List ℕ → ℤ → LogLevel → List ℕ → ℕ → ℕ → TimeCache → DLogMessage × TimeCache
  unfolding new_message
  new_in_function filename line level func seconds us c =
      let (m, c') = new_message filename line level seconds us c in
      (put_into (string func ∷ character b' ' ∷ []) m, c')

  -- DLogMessage::DLogMessage(logger, filename, line, toAbort)
  unfoldable pub new_with_errno :
      (ℤ → List ℕ) → ℤ → List ℕ → ℤ → Bool → ℕ → ℕ → TimeCache → DLogMessage × TimeCache
  unfolding new_message
  new_with_errno strerror saved_errno filename line to_abort seconds us c =
      let (m, c') = new_message filename line (if to_abort then fatal else error) seconds us c in
      (
        if abs saved_errno == 0
            then m
            else put_into
                (string (strerror saved_errno)
                  ∷ string (codes " (errno=")
                  ∷ integer saved_errno
                  ∷ string (codes ") ")
                  ∷ [])
                m,
        c',
      )

  -- stream_ << " - " << filename_ << ':' << line_ << '\n'
  abbrev pub ending : List ℕ → ℤ → List (Item D)
  ending filename line =
      string (codes " - ")
      ∷ string (base_name filename)
      ∷ character b':'
      ∷ integer line
      ∷ character b'\n'
      ∷ []

  -- DLogMessage::~DLogMessage
  unfoldable pub finish : Bool → DLogMessage → Written
  unfolding base_name
  finish has_logger m = record {
    to_logger = has_logger;
    text = (put_all print_double (ending m.filename m.line) m.stream).bytes;
    flushed = is_fatal m.level;
    aborted = is_fatal m.level;
  }

  -- LogMessage::LogMessage
  unfoldable pub new_log_message : LogLevel → ℕ → ℕ → TimeCache → LogMessage × TimeCache
  unfolding refresh
  new_log_message level seconds us c =
      let c' = refresh local_time seconds c in
      (record { stream = put_all print_double (heading level us c') new_stream }, c')

  -- LogMessage::~LogMessage
  unfoldable pub finish_log_message : Bool → LogMessage → Written
  finish_log_message has_logger m = record {
    to_logger = has_logger;
    text = (put_all print_double (character b'\n' ∷ []) m.stream).bytes;
    flushed = false;
    aborted = false;
  }
