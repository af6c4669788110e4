-- ===== src/Client/Logging.antt =====
-- client/logger.go: the loggers of the client, and what they write.
use theo_forge.Prelude.{Bool, true, false, Text, text, List, [], ◌∷◌, ◌++◌, Error}
use theo_forge.Int.{ℤ}

-- A value of a variadic `...any`; `message e` is the string `e.Error()`.
pub data Any : Type 0 where
  str : Text → Any
  int : ℤ → Any
  message : Error → Any

-- `slog.Attr`
pub record Attr : Type 0 where
  pub key : Text
  pub value : Any

unfoldable pub key_of : Any → Text
key_of (str key) = key
key_of (int i) = text "INVALID_KEY"
key_of (message e) = text "INVALID_KEY"

unfoldable pub kv_to_attrs : List Any → List Attr
kv_to_attrs [] = []
kv_to_attrs (k ∷ []) = record { key = text "MISSING"; value = str (text "value-for-last-key") } ∷ []
kv_to_attrs (k ∷ v ∷ kv) = record { key = key_of k; value = v } ∷ kv_to_attrs kv

pub data Level : Type 0 where
  debug_level error_level : Level

-- What a logger has been given: by `slog.LogAttrs`, or by a call of a consumer's own logger.
pub data Entry : Type 0 where
  log_attrs : Level → Text → List Attr → Entry
  called : Level → Text → List Any → Entry

-- `slog set` is a SlogLogger, `set` telling whether its `L` is not nil; `custom` is a consumer's
-- logger, which panics on the calls that the function tells.
pub data Logger : Type 0 where
  noop : Logger
  slog : Bool → Logger
  custom : (Level → Text → List Any → Bool) → Logger

unfoldable pub noop_log : List Entry → Bool × List Entry
noop_log log = (false, log)

unfoldable pub slog_log : Bool → Level → Text → List Any → List Entry → Bool × List Entry
slog_log false level msg kv log = (false, log)
slog_log true level msg kv log = (false, log ++ log_attrs level msg (kv_to_attrs kv) ∷ [])

-- The `Debug` or `Error` of a logger: whether it panics, and what has been written after it.
unfoldable pub log_at : Logger → Level → Text → List Any → List Entry → Bool × List Entry
log_at noop level msg kv log = noop_log log
log_at (slog set) level msg kv log = slog_log set level msg kv log
log_at (custom panics) level msg kv log = (panics level msg kv, log ++ called level msg kv ∷ [])

-- `recover` in the deferred function: the panic ends there.
unfoldable pub recover : Bool × List Entry → Bool × List Entry
recover (panicking, log) = (false, log)

-- `logSafe`: whether it panics, and what has been written after it.
unfoldable pub log_safe :
    (Text → List Any → List Entry → Bool × List Entry)
    → Text
    → List Any
    → List Entry
    → Bool × List Entry
log_safe fn msg kv log = recover (fn msg kv log)
