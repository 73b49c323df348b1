-- ===== src/Logger/Lines.antt =====
-- Where the lines of the log go (Logger.cpp).
use network_study.Prelude.{
  ◌+◌, ◌≡◌, ◌≤◌, refl, ap, ◌∙◌, Bool, true, false, [], ◌∷◌, none, some, if◌then◌else◌, leb, le→leb,
  length, arith, codes,
}
use network_study.Prelude.Int.{ℤ}
use network_study.MemDb.{Str, same_str, MemDb, true_str, typed, set_value, get_bool_value}
use network_study.MemDb.Values.{get_value-set_value_self}
use network_study.Logger.{LogFile, open_fails, null_stream, opened, line_of, outputs, log}

same_text : (v : Str) → typed (same_str true_str) false v ≡ same_str true_str v
unfolding typed same_str
same_text [] = refl
same_text (c ∷ cs) = refl

outputs_lem :
    (enabled : Bool) (log_file : LogFile) (line : Str)
    → outputs enabled log_file line ≡ (
        if enabled
        then (elim log_file [
          | open_fails ↦ record { to_file = none; to_console = none }
          | null_stream ↦ record { to_file = none; to_console = some line }
          | opened fails ↦ record {
            to_file = some line;
            to_console = if fails then none else some line;
          }
        ])
        else record { to_file = none; to_console = some line })
unfolding outputs
outputs_lem false log_file line = refl
outputs_lem true open_fails line = refl
outputs_lem true null_stream line = refl
outputs_lem true (opened true) line = refl
outputs_lem true (opened false) line = refl

-- `Log` writes a text of up to 2047 characters with its date to the console alone, unless the value of
-- "filelog" is "true": then it is written to the file if that opens, and to the console too, except
-- when the file cannot be opened or closed. In that case the console gets nothing.
log-set_value :
    (print : ℤ → Str) (err_no : ℤ) (text date_time v : Str) (log_file : LogFile) (db : MemDb)
    → length text ≤ 2047
    → let line = line_of print err_no date_time text in
      log print err_no text date_time log_file (set_value (codes "filelog") v db)
      ≡ some (
          if same_str true_str v
          then (elim log_file [
            | open_fails ↦ record { to_file = none; to_console = none }
            | null_stream ↦ record { to_file = none; to_console = some line }
            | opened fails ↦ record {
              to_file = some line;
              to_console = if fails then none else some line;
            }
          ])
          else record { to_file = none; to_console = some line })
unfolding log get_bool_value
log-set_value print err_no text date_time v log_file db fits =
    let small : leb (length text + 1) 2048 ≡ true = le→leb (length text + 1) 2048 (omega arith) in
    let line = line_of print err_no date_time text in
    let value = get_value-set_value_self (codes "filelog") v db in
    let enabled = ap (typed (same_str true_str) false) value ∙ same_text v in
    rw (log, small, get_bool_value)
      (ap (λ b. some (outputs b log_file line)) enabled
        ∙ ap some (outputs_lem (same_str true_str v) log_file line))
