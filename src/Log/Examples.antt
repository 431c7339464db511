-- ===== src/Log/Examples.antt =====
-- Runs of src/log.cpp on concrete inputs.
use acppsrv.Prelude.{◌≡◌, refl, some, none, List, [], ◌∷◌, ◌++◌}
use acppsrv.Prelude.{str_append}
use acppsrv.Log.{
  Piece, text, throws, info, warning, to_string, header, log_line, is_enabled, write_all, write,
}
use acppsrv.Log.Message.{log_line_lem, texts, line_end}

abbrev head : List Piece
unfolding header
head = header (text "12:00") "7" "9" (some "3" ∷ none ∷ []) info

header_runs : texts head ≡ "12:00 [7.9.3] I "
unfolding header texts to_string
header_runs = refl

log_line_lem_example :
    log_line info info head (text "up" ∷ throws ∷ []) ""
    ≡ str_append "" (
        str_append
          (texts (head ++ text "up" ∷ throws ∷ []))
          (line_end (head ++ text "up" ∷ throws ∷ [])))
unfolding is_enabled
log_line_lem_example = log_line_lem info info head (text "up" ∷ throws ∷ []) ""

log_line_runs : log_line info info head (text "up" ∷ []) "a" ≡ "a12:00 [7.9.3] I up\n"
unfolding log_line header write_all write to_string
log_line_runs = refl

log_line_filtered : log_line warning info head (text "up" ∷ []) "a" ≡ "a"
unfolding log_line header write_all write to_string
log_line_filtered = refl
