-- ===== src/Log.antt =====
-- src/log.hpp and src/log.cpp: log levels, their letters and names, and the life of one `log_msg`
-- from its constructor over `operator<<` to its destructor. An `osyncstream` is its buffered text;
-- standard error is the text written so far. `kill` destroys the stream, which emits the buffer.
pub mod Levels
pub mod Message
pub mod Stamp
pub mod Examples
use acppsrv.Prelude.Int.{ℤ, pos, negsuc, leb_ℤ, ltb_ℤ}
use acppsrv.Prelude.{
  ℕ, String, Bool, ◌&&◌, ◌==◌, Option, none, some, List, [], ◌∷◌, if◌then◌else◌, lookup, str_append,
}

-- `enum class log_level: int`: any `int` may be cast to it.
abbrev pub LogLevel : Type 0
LogLevel = ℤ

abbrev pub off : LogLevel
off = negsuc 0

abbrev pub emerg : LogLevel
emerg = pos 0

abbrev pub alert : LogLevel
alert = pos 1

abbrev pub crit : LogLevel
crit = pos 2

abbrev pub err : LogLevel
err = pos 3

abbrev pub warning : LogLevel
warning = pos 4

abbrev pub notice : LogLevel
notice = pos 5

abbrev pub info : LogLevel
info = pos 6

abbrev pub debug : LogLevel
debug = pos 7

unfoldable pub valid : LogLevel → Bool
valid level = leb_ℤ off level && leb_ℤ level debug

-- The `switch` of `to_string`, its cases in order.
unfoldable pub to_string : LogLevel → String
to_string (negsuc ℕ.zero) = "-"
to_string (pos ℕ.zero) = "X"
to_string (pos (ℕ.suc ℕ.zero)) = "A"
to_string (pos (ℕ.suc (ℕ.suc ℕ.zero))) = "C"
to_string (pos (ℕ.suc (ℕ.suc (ℕ.suc ℕ.zero)))) = "E"
to_string (pos (ℕ.suc (ℕ.suc (ℕ.suc (ℕ.suc ℕ.zero))))) = "W"
to_string (pos (ℕ.suc (ℕ.suc (ℕ.suc (ℕ.suc (ℕ.suc ℕ.zero)))))) = "N"
to_string (pos (ℕ.suc (ℕ.suc (ℕ.suc (ℕ.suc (ℕ.suc (ℕ.suc ℕ.zero))))))) = "I"
to_string (pos (ℕ.suc (ℕ.suc (ℕ.suc (ℕ.suc (ℕ.suc (ℕ.suc (ℕ.suc ℕ.zero)))))))) = "D"
to_string _ = "?"

-- The map of `from_string`.
unfoldable pub levels : List (String × LogLevel)
levels =
    ("-", off)
    ∷ ("off", off)
    ∷ ("X", emerg)
    ∷ ("emerg", emerg)
    ∷ ("emergency", emerg)
    ∷ ("A", alert)
    ∷ ("alert", alert)
    ∷ ("C", crit)
    ∷ ("crit", crit)
    ∷ ("critical", crit)
    ∷ ("E", err)
    ∷ ("err", err)
    ∷ ("error", err)
    ∷ ("W", warning)
    ∷ ("warn", warning)
    ∷ ("warning", warning)
    ∷ ("N", notice)
    ∷ ("notice", notice)
    ∷ ("I", info)
    ∷ ("info", info)
    ∷ ("D", debug)
    ∷ ("debug", debug)
    ∷ []

unfoldable pub from_string : String → Option LogLevel
unfolding levels lookup
from_string str = lookup str levels

-- What one `*_os << v` does: it writes a text, or it throws.
pub data Piece : Type 0 where
  text : String → Piece
  throws : Piece

pub record LogMsg : Type 0 where
  pub level : LogLevel
  -- The buffer of the stream, if there is a stream.
  pub os : Option String

-- The message and what standard error has received.
abbrev pub LogState : Type 0
LogState = LogMsg × String

kill : LogState → LogState
kill (m, out) = elim m.os [
  | none ↦ (m, out)
  | some buf ↦ (record m { os = none }, str_append out buf)
]

-- `operator<<`: without a stream nothing happens; an exception kills the message.
unfoldable pub write : LogState → Piece → LogState
unfolding kill
write (m, out) throws = kill (m, out)
write (m, out) (text v) = elim m.os [
  | none ↦ (m, out)
  | some buf ↦ (record m { os = some (str_append buf v) }, out)
]

unfoldable pub write_all : LogState → List Piece → LogState
write_all s [] = s
write_all s (p ∷ ps) = write_all (write s p) ps

session_pieces : List (Option String) → List Piece
session_pieces [] = []
session_pieces (none ∷ ss) = session_pieces ss
session_pieces (some s ∷ ss) = text "." ∷ text s ∷ session_pieces ss

-- What the constructor writes before the message, from the texts of time, process and thread.
unfoldable pub header : Piece → String → String → List (Option String) → LogLevel → List Piece
unfolding session_pieces
header time pid tid session level =
    time ∷ text " [" ∷ text pid ∷ text "." ∷ text tid ∷ ending (session_pieces session)
  where
    ending : List Piece → List Piece
    ending [] = text "]" ∷ text " " ∷ text (to_string level) ∷ text " " ∷ []
    ending (p ∷ ps) = p ∷ ending ps

-- Both tests of the constructor.
unfoldable pub is_enabled : LogLevel → LogLevel → Bool
is_enabled logger level = ltb_ℤ off level && leb_ℤ level logger

unfoldable pub log_msg : LogLevel → LogLevel → List Piece → String → LogState
unfolding is_enabled
log_msg logger level head out =
    if is_enabled logger level
    then write_all (record { level = level; os = some "" }, out) head
    else (record { level = level; os = none }, out)

-- The destructor: the end of line, and the buffer goes out.
unfoldable pub destroy : LogState → String
destroy (m, out) = elim m.os [ none ↦ out | some buf ↦ str_append out (str_append buf "\n") ]

-- `log_msg(level, session) << p << …`, as one statement.
unfoldable pub log_line : LogLevel → LogLevel → List Piece → List Piece → String → String
unfolding log_msg destroy
log_line logger level head ps out = destroy (write_all (log_msg logger level head out) ps)
