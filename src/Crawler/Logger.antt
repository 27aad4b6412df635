-- ===== src/Crawler/Logger.antt =====
-- `Logger` of js/playwright-chaos/src/logger.ts. What it wrote to the stream and to the console is a
-- field; `JSON.stringify` and the clock's text are arguments.
pub mod Entries
use luna_mbt.Js.Text.{js, is_empty}
use luna_mbt.Prelude.{
  ℕ, Bool, true, false, Option, none, some, List, [], ◌∷◌, ◌++◌, Text, if◌then◌else◌, leb,
}

pub data LogLevel : Type 0 where
  debug info warn error : LogLevel

pub record LogEntry : Type 0 where
  pub timestamp : Text
  pub level : LogLevel
  pub event : Text
  pub data_text : Option Text

pub record LoggerOptions : Type 0 where
  pub log_file : Text
  pub level : LogLevel
  pub console : Bool
  pub json_format : Bool

-- `stream` is what was written to the file, where there is one; `printed` is what the console got.
pub record Logger : Type 0 where
  pub options : LoggerOptions
  pub stream : Option Text
  pub buffer : List LogEntry
  pub printed : List (LogLevel × Text)

-- `LOG_LEVELS`
abbrev pub log_levels : LogLevel → ℕ
log_levels LogLevel.debug = 0
log_levels LogLevel.info = 1
log_levels LogLevel.warn = 2
log_levels LogLevel.error = 3

-- `toUpperCase` of a level
abbrev pub level_name : LogLevel → Text
level_name LogLevel.debug = js "DEBUG"
level_name LogLevel.info = js "INFO"
level_name LogLevel.warn = js "WARN"
level_name LogLevel.error = js "ERROR"

-- The constructor.
unfoldable pub construct : LoggerOptions → Logger
construct o = record {
  options = o;
  stream = if is_empty o.log_file then none else some [];
  buffer = [];
  printed = [];
}

-- `createNullLogger`
unfoldable pub create_null_logger : Logger
create_null_logger =
    construct
      (record { log_file = []; level = LogLevel.error; console = false; json_format = true })

-- `shouldLog`
unfoldable pub should_log : Logger → LogLevel → Bool
should_log l level = leb (log_levels l.options.level) (log_levels level)

abbrev data_suffix : Option Text → Text
data_suffix none = []
data_suffix (some text) = js " " ++ text

module _ (stringify : LogEntry → Text) where
  -- `formatEntry`
  unfoldable pub format_entry : LoggerOptions → LogEntry → Text
  format_entry o e =
      if o.json_format
      then stringify e
      else js "["
        ++ (e.timestamp
            ++ (js "] ["
                ++ (level_name e.level ++ (js "] " ++ (e.event ++ data_suffix e.data_text)))))

  abbrev pub write_stream : Option Text → Text → Option Text
  write_stream none text = none
  write_stream (some written) text = some (written ++ (text ++ js "\n"))

  -- `write`, of the entry that it makes
  unfoldable pub write : Logger → LogEntry → Logger
  write l e =
      if should_log l e.level
      then record l {
        buffer = l.buffer ++ e ∷ [];
        stream = write_stream l.stream (format_entry l.options e);
        printed =
            if l.options.console
            then l.printed ++ (e.level, format_entry l.options e) ∷ []
            else l.printed;
      }
      else l

  -- Calls of `debug`, `info`, `warn` and `error` in a row.
  unfoldable pub write_all : Logger → List LogEntry → Logger
  write_all l [] = l
  write_all l (e ∷ es) = write_all (write l e) es
