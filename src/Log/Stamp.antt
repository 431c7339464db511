-- ===== src/Log/Stamp.antt =====
-- The time stamp of a message in src/log.cpp: the constructor of `log_msg` prints the date with six
-- zeros for the microseconds and copies their digits over the last zeros. A text is the list of its
-- characters' codes.
pub mod Padded
pub mod Examples
use acppsrv.Prelude.{
  ℕ, zero, suc, ◌+◌, ◌-◌, ◌/◌, ◌%◌, List, [], ◌∷◌, ◌++◌, length, if◌then◌else◌, ltb, copy_to,
}

-- std::to_string, with fuel for the digits; a 64-bit number has at most 20.
unfoldable pub decimal : ℕ → ℕ → List ℕ
decimal zero n = []
decimal (suc fuel) n =
    let rest = decimal fuel (n / 10) in
    if ltb n 10 then (48 + n) ∷ [] else rest ++ (48 + n % 10) ∷ []

unfoldable pub to_string : ℕ → List ℕ
to_string n = decimal 20 n

-- Behind the zeros.
abbrev pub time_end : ℕ
time_end = 26

-- From what `strftime` has printed, and the microseconds since the epoch.
unfoldable pub stamp : List ℕ → ℕ → List ℕ
stamp buf now = let usec = to_string (now % 1_000_000) in copy_to (time_end - length usec) usec buf
