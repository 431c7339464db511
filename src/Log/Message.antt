-- ===== src/Log/Message.antt =====
-- What one `log_msg` statement leaves on standard error.
use acppsrv.Prelude.{
  String, ◌≡◌, refl, ◌∙◌, some, none, List, [], ◌∷◌, ◌++◌, if◌then◌else◌, Bool-cases, inl, inr,
  str_append, text_laws,
}
use acppsrv.Log.{
  LogLevel, Piece, text, throws, LogState, write, write_all, is_enabled, destroy, log_line,
}

-- The text of the pieces up to the first one that throws.
unfoldable pub texts : List Piece → String
texts [] = ""
texts (throws ∷ ps) = ""
texts (text v ∷ ps) = str_append v (texts ps)

-- The end of line, written only if no piece throws.
unfoldable pub line_end : List Piece → String
line_end [] = "\n"
line_end (throws ∷ ps) = ""
line_end (text v ∷ ps) = line_end ps

write_all-append :
    (s : LogState) (ps qs : List Piece) → write_all s (ps ++ qs) ≡ write_all (write_all s ps) qs
unfolding write_all
write_all-append s [] qs = refl
write_all-append s (p ∷ ps) qs = write_all-append (write s p) ps qs

write_all-dead :
    (l : LogLevel) (out : String) (ps : List Piece)
    → write_all (record { level = l; os = none }, out) ps ≡ (record { level = l; os = none }, out)
unfolding write_all write
write_all-dead l out [] = refl
write_all-dead l out (throws ∷ ps) = write_all-dead l out ps
write_all-dead l out (text v ∷ ps) = write_all-dead l out ps

destroy-write_all :
    (l : LogLevel) (buf out : String) (ps : List Piece)
    → destroy (write_all (record { level = l; os = some buf }, out) ps)
      ≡ str_append out (str_append buf (str_append (texts ps) (line_end ps)))
unfolding destroy write_all write texts line_end
destroy-write_all l buf out [] = simp text_laws
destroy-write_all l buf out (throws ∷ ps) =
    rw (write_all-dead l (str_append out buf) ps) (simp text_laws)
destroy-write_all l buf out (text v ∷ ps) =
    destroy-write_all l (str_append buf v) out ps ∙ simp text_laws

-- If the level passes the logger's threshold, standard error receives the header and the message up
-- to the first piece whose output throws, and the end of line if none throws; otherwise it
-- receives nothing.
pub log_line_lem :
    (logger level : LogLevel) (head ps : List Piece) (out : String)
    → log_line logger level head ps out ≡ (
        if is_enabled logger level
        then str_append out (str_append (texts (head ++ ps)) (line_end (head ++ ps)))
        else out)
unfolding log_line
log_line_lem logger level head ps out = elim (Bool-cases (is_enabled logger level)) [
  | inl on ↦
      rw (on, log_line, ← write_all-append (record { level = level; os = some "" }, out) head ps)
        (destroy-write_all level "" out (head ++ ps) ∙ simp text_laws)
  | inr no_log ↦ rw (no_log, log_line) (rw (write_all-dead level out ps) refl)
]
