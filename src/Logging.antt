-- ===== src/Logging.antt =====
-- src/logger/logger.service.ts: the logger, whose lines go to the console.
pub mod Filter
mod Digits
pub mod Http
use rooeel_backend_api.Prelude.{
  ℕ, zero, suc, ◌+◌, ◌/◌, ◌%◌, Bool, true, false, Option, none, some, List, [], ◌∷◌, ◌++◌,
  if◌then◌else◌, ltb,
}
use rooeel_backend_api.Text.{Text, codes, text_eq, is_empty, includes, to_upper_case, to_lower_case}
use rooeel_backend_api.Storage.{or_text}

unfoldable pub all_levels : List Text
all_levels = codes "error" ∷ codes "warn" ∷ codes "log" ∷ codes "debug" ∷ codes "verbose" ∷ []

pub record Logger : Type 0 where
  pub log_levels : List Text
  pub context : Text

-- `list.indexOf(text)`
unfoldable pub index_of : List Text → Text → Option ℕ
index_of [] t = none
index_of (s ∷ ss) t =
    let rest = index_of ss t in
    if text_eq s t then some 0 else elim rest [ none ↦ none | some i ↦ some (suc i) ]

-- `list.slice(0, n)`
unfoldable pub take : ℕ → List Text → List Text
take zero ss = []
take (suc n) [] = []
take (suc n) (s ∷ ss) = s ∷ take n ss

-- The argument of `setLogLevels`: one level or a list.
pub data Levels : Type 0 where
  one : Text → Levels
  many : List Text → Levels

unfoldable pub set_log_levels : Levels → Logger → Logger
set_log_levels (one level) logger = elim (index_of all_levels level) [
  | none ↦ logger
  | some i ↦ record logger { log_levels = take (suc i) all_levels }
]
set_log_levels (many levels) logger = record logger { log_levels = levels }

abbrev pub set_context : Text → Logger → Logger
set_context context logger = record logger { context = context }

abbrev pub fresh_logger : Logger
fresh_logger = record { log_levels = all_levels; context = codes "Application" }

-- The constructor, by `LOG_LEVEL`.
unfoldable pub new_logger : Option Text → Logger
new_logger none = fresh_logger
new_logger (some value) =
    if is_empty (to_lower_case value)
    then fresh_logger
    else set_log_levels (one (to_lower_case value)) fresh_logger

-- The local date and time.
pub record Moment : Type 0 where
  pub year : ℕ
  pub month : ℕ
  pub day : ℕ
  pub hours : ℕ
  pub minutes : ℕ
  pub seconds : ℕ

-- The decimal digits of a number before a text; one more step than the number is enough.
unfoldable pub digits_before : ℕ → ℕ → Text → Text
digits_before zero n rest = rest
digits_before (suc fuel) n rest =
    let tens = digits_before fuel (n / 10) ((b'0' + n % 10) ∷ rest) in
    if ltb n 10 then (b'0' + n) ∷ rest else tens

-- `String(n)`
unfoldable pub decimal : ℕ → Text
unfolding digits_before
decimal n = digits_before (suc n) n []

-- `text.padStart(2, '0')`
abbrev pub pad_two : Text → Text
pad_two [] = codes "00"
pad_two (c ∷ []) = b'0' ∷ c ∷ []
pad_two (c ∷ d ∷ s) = c ∷ d ∷ s

unfoldable pub format_timestamp : Moment → Text
unfolding decimal
format_timestamp m =
    decimal m.year
    ++ (codes "-"
        ++ (pad_two (decimal m.month)
            ++ (codes "-"
                ++ (pad_two (decimal m.day)
                    ++ (codes " "
                        ++ (pad_two (decimal m.hours)
                            ++ (codes ":"
                                ++ (pad_two (decimal m.minutes)
                                    ++ (codes ":" ++ pad_two (decimal m.seconds))))))))))

-- `\x1b[`, the colour and `m`
abbrev pub colour : Text → Text
colour code = 0x1b ∷ codes "[" ++ (code ++ codes "m")

abbrev pub reset : Text
reset = colour (codes "0")

abbrev pub red : Text
red = colour (codes "31")

abbrev pub green : Text
green = colour (codes "32")

abbrev pub yellow : Text
yellow = colour (codes "33")

abbrev pub blue : Text
blue = colour (codes "34")

abbrev pub magenta : Text
magenta = colour (codes "35")

abbrev pub cyan : Text
cyan = colour (codes "36")

abbrev pub white : Text
white = colour (codes "37")

abbrev pub gray : Text
gray = colour (codes "90")

unfoldable pub get_level_color : Text → Text
get_level_color level =
    let name = to_lower_case level in
    if text_eq name (codes "error")
    then red
    else if text_eq name (codes "warn")
    then yellow
    else if text_eq name (codes "log")
    then green
    else if text_eq name (codes "debug")
    then blue
    else if text_eq name (codes "verbose")
    then magenta
    else if text_eq name (codes "http")
    then cyan
    else white

unfoldable pub format_message : Logger → Moment → Text → Text → Option Text → Text
unfolding format_timestamp get_level_color
format_message logger now level message context =
    gray
    ++ (codes "["
        ++ (format_timestamp now
            ++ (codes "]"
                ++ (reset
                    ++ (codes " "
                        ++ (get_level_color level
                            ++ (codes "["
                                ++ (to_upper_case level
                                    ++ (codes "]"
                                        ++ (reset
                                            ++ (codes " "
                                                ++ (cyan
                                                    ++ (codes "["
                                                        ++ (or_text context (
                                                            or_text (some logger.context)
                                                            (codes "Application"))
                                                            ++ (codes "]"
                                                            ++ (reset
                                                            ++ (codes " "
                                                            ++ message)))))))))))))))))

-- The methods of the console.
pub data Channel : Type 0 where
  to_log to_error to_warn to_debug : Channel

abbrev pub Line : Type 0
Line = Channel × Text

unfoldable pub should_log : Logger → Text → Bool
should_log logger level = includes logger.log_levels level

-- The line of a level, if the level is on.
abbrev write : Logger → Text → List Line → List Line
write logger level lines = if should_log logger level then lines else []

unfoldable pub log : Logger → Moment → Text → Option Text → List Line
unfolding should_log format_message
log logger now message context =
    write logger (codes "log")
      ((to_log, format_message logger now (codes "log") message context) ∷ [])

-- `if (trace)`
abbrev trace_line : Option Text → List Line
trace_line none = []
trace_line (some trace) = if is_empty trace then [] else (to_error, red ++ (trace ++ reset)) ∷ []

unfoldable pub error : Logger → Moment → Text → Option Text → Option Text → List Line
unfolding should_log format_message
error logger now message trace context =
    write logger (codes "error")
      ((to_error, format_message logger now (codes "error") message context) ∷ trace_line trace)

unfoldable pub warn : Logger → Moment → Text → Option Text → List Line
unfolding should_log format_message
warn logger now message context =
    write logger (codes "warn")
      ((to_warn, format_message logger now (codes "warn") message context) ∷ [])

unfoldable pub debug : Logger → Moment → Text → Option Text → List Line
unfolding should_log format_message
debug logger now message context =
    write logger (codes "debug")
      ((to_debug, format_message logger now (codes "debug") message context) ∷ [])

unfoldable pub verbose : Logger → Moment → Text → Option Text → List Line
unfolding should_log format_message
verbose logger now message context =
    write logger (codes "verbose")
      ((to_log, format_message logger now (codes "verbose") message context) ∷ [])

-- The lines of requests, under the level of `log`.
unfoldable pub http : Logger → Moment → Text → Option Text → List Line
unfolding should_log format_message
http logger now message context =
    write logger (codes "log")
      ((to_log, format_message logger now (codes "http") message context) ∷ [])
