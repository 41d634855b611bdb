-- ===== src/Logging.antt =====
-- terminal_proxy/logging_config.py: what is logged of a record, and the levels of the loggers. Of
-- Python's `logging` module, the texts that it makes of a record and the attributes that hold its
-- levels are parameters.
pub mod Records
pub mod Levels
use open_terminal_k8s_proxy.Base.{
  ℕ, ◌+◌, ◌≡◌, refl, Bool, true, false, ◌||◌, String, ◌==◌, Option, none, some, List, [], ◌∷◌,
  if◌then◌else◌,
}
use open_terminal_k8s_proxy.Base.Dict
use open_terminal_k8s_proxy.Base.Dict.{Dict, put_some}
use open_terminal_k8s_proxy.Json.{Json, text}

-- A `logging.LogRecord`, and the attributes that a call may add to it.
pub record LogRecord : Type 0 where
  pub created : ℕ
  pub levelname : String
  pub name : String
  pub message : String
  pub exc_info : Option String
  pub user_id : Option Json
  pub pod_name : Option Json
  pub duration_ms : Option Json

-- What is used of `logging.Formatter` and of Python's `str`.
pub record Formats : Type 0 where
  pub format_time : ℕ → String
  pub format_exception : String → String
  pub str : Dict Json → String

-- `log_data["exception"]`
abbrev pub exception_text : Formats → Option String → Option Json
exception_text lib none = none
exception_text lib (some e) = some (text (lib.format_exception e))

unfoldable pub log_data : Formats → LogRecord → Dict Json
log_data lib r = put_some "duration_ms" r.duration_ms (
    put_some "pod_name" r.pod_name (
      put_some "user_id" r.user_id (
        put_some "exception" (exception_text lib r.exc_info) (
          ("timestamp", text (lib.format_time r.created))
          ∷ ("level", text r.levelname)
          ∷ ("logger", text r.name)
          ∷ ("message", text r.message)
          ∷ []))))

-- `StructuredFormatter.format`
unfoldable pub format : Formats → LogRecord → String
format lib r = lib.str (log_data lib r)

-- The environment variable `DEBUG`, two methods of Python's texts, and the attributes of the module
-- `logging` that are numbers.
pub record LogLibrary : Type 0 where
  pub debug : Option String
  pub lower : String → String
  pub upper : String → String
  pub level_of : String → Option ℕ

abbrev pub debug_level : ℕ
debug_level = 10

abbrev pub info_level : ℕ
info_level = 20

abbrev or_else : {A : Type 0} → Option A → A → A
or_else none d = d
or_else (some v) d = v

unfoldable pub is_debug_enabled : LogLibrary → Bool
is_debug_enabled lib =
    let value = lib.lower (or_else lib.debug "") in
    (value == "true") || (value == "1") || (value == "yes")

-- The level of the root logger, those of the others that have one, and the number of handlers
-- that write to the standard output.
pub record Logs : Type 0 where
  pub root_level : ℕ
  pub levels : Dict ℕ
  pub handlers : ℕ

-- `logging.getLogger(name).setLevel(level)`, one after the other
unfoldable pub set_levels : List String → ℕ → Dict ℕ → Dict ℕ
set_levels [] level d = d
set_levels (name ∷ names) level d = set_levels names level (Dict.put name level d)

abbrev pub server_loggers : List String
server_loggers = "uvicorn" ∷ "uvicorn.access" ∷ "uvicorn.error" ∷ []

unfoldable pub chosen_level : LogLibrary → String → Bool → ℕ
chosen_level lib log_level true = debug_level
chosen_level lib log_level false = or_else (lib.level_of (lib.upper log_level)) info_level

-- `if debug_mode: logging.getLogger("terminal_proxy").setLevel(logging.DEBUG)`
abbrev own_level : Bool → Dict ℕ → Dict ℕ
own_level true d = Dict.put "terminal_proxy" debug_level d
own_level false d = d

-- `lifespan` calls it first.
unfoldable pub setup_logging : LogLibrary → String → Logs → Logs
setup_logging lib log_level s =
    let debug_mode = is_debug_enabled lib in
    let level = chosen_level lib log_level debug_mode in
    record {
      root_level = level;
      levels = set_levels server_loggers level (own_level debug_mode s.levels);
      handlers = s.handlers + 1;
    }
