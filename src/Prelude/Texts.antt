-- ===== src/Prelude/Texts.antt =====
-- Concatenation of texts.
use Prim.Native.String.{String, ◌++◌}
use mathlib.Core.List.{List, [], ◌∷◌}
use text.Mathlib.TextLemmas.{append_assoc, append-nil, nil-append}

abbrev pub str_append : String → String → String
str_append a b = a ++ b

-- The texts one after the other.
abbrev pub join : List String → String
join [] = ""
join (s ∷ []) = s
join (s ∷ t ∷ ss) = s ++ join (t ∷ ss)

pub ruleset text_laws = (append_assoc, append-nil, nil-append)
