-- ===== src/Logger.antt =====
-- Logger.cpp and Utils.h: the lines of the log. What printf and its kin make of a number is a
-- parameter; files and the console are what the calls are handed.
pub mod Lines
use network_study.Prelude.{
  ℕ, zero, ◌+◌, ◌-◌, Bool, true, false, List, [], ◌∷◌, ◌++◌, Option, none, some, if◌then◌else◌, leb,
  length, take, codes,
}
use network_study.Prelude.Int.{ℤ, pos, negsuc}
use network_study.Bytes.{has_end, c_string}
use network_study.MemDb.{Str, MemDb, get_bool_value}

-- LOG_ERROR and LOG_INFO of predef.h
abbrev log_error : ℤ
log_error = negsuc 0

abbrev pub log_info : ℤ
log_info = pos 1

pub record SystemTime : Type 0 where
  pub year : ℕ
  pub month : ℕ
  pub day : ℕ
  pub hour : ℕ
  pub minute : ℕ
  pub second : ℕ

-- `GetCurrentDateTime`, where `pad w n` is what `%0wd` prints of `n`.
unfoldable get_current_date_time : (ℕ → ℕ → Str) → SystemTime → Str
get_current_date_time pad t =
    pad 4 t.year
    ++ (codes "-"
        ++ (pad 2 t.month
            ++ (codes "-"
                ++ (pad 2 t.day
                    ++ (codes " "
                        ++ (pad 2 t.hour
                            ++ (codes ":"
                                ++ (pad 2 t.minute
                                    ++ (codes ":" ++ (pad 2 t.second ++ codes " "))))))))))

-- `GetStringFormat`, from what snprintf prints: it is measured, printed with its end into a buffer of
-- that size and one more, and read back without the end.
unfoldable get_string_format : Str → Str
get_string_format printed = let size = length printed + 1 in take (size - 1) (printed ++ (0 ∷ []))

-- `StringToPCWSTR`, where `wide` is what MultiByteToWideChar makes of a text and its end: it is stored in
-- an array of that length, and read back to the first end.
unfoldable string_to_pcwstr : (Str → List ℕ) → Str → Option (List ℕ)
string_to_pcwstr wide str =
    let buf = wide (str ++ (0 ∷ [])) in if has_end buf then some (c_string buf) else none

-- The switch on the kind of message.
unfoldable pub line_of : (ℤ → Str) → ℤ → Str → Str → Str
unfolding get_string_format
line_of print err_no date_time buffer = elim err_no [
  | negsuc zero ↦
      get_string_format (codes "Error[" ++ (print (negsuc 0) ++ codes "] "))
      ++ (date_time ++ (buffer ++ codes "\n"))
  | pos zero ↦ get_string_format (codes "LOG_INFO") ++ (date_time ++ (buffer ++ codes "\n"))
  | _ ↦ date_time ++ (buffer ++ codes "\n")
]

-- How opening LOG.txt ends, and closing it.
pub data LogFile : Type 0 where
  open_fails : LogFile
  null_stream : LogFile
  opened : (close_fails : Bool) → LogFile

-- The texts handed to `fputs` and to `printf`.
pub record Outputs : Type 0 where
  pub to_file : Option Str
  pub to_console : Option Str

unfoldable pub outputs : Bool → LogFile → Str → Outputs
outputs false log_file line = record { to_file = none; to_console = some line }
outputs true open_fails line = record { to_file = none; to_console = none }
outputs true null_stream line = record { to_file = none; to_console = some line }
outputs true (opened true) line = record { to_file = some line; to_console = none }
outputs true (opened false) line = record { to_file = some line; to_console = some line }

-- `Log`, from the text that the format and its arguments give. One that does not fit the buffer of
-- 2048 ends the program.
unfoldable pub log : (ℤ → Str) → ℤ → Str → Str → LogFile → MemDb → Option Outputs
unfolding outputs line_of
log print err_no text date_time log_file db =
    if leb (length text + 1) 2048
    then some (
        outputs (get_bool_value (codes "filelog") false db) log_file
          (line_of print err_no date_time text))
    else none
