-- ===== src/AsioTrial/Printing.antt =====
-- What the program of AsioProject.cpp prints.
use network_study.Prelude.{
  ℕ, ◌≡◌, ◌≤◌, refl, ap, ◌∙◌, List, [], ◌∷◌, ◌++◌, some, length, drop, arith, All, length-append,
  length-drop, take-append,
}
use network_study.Bytes.{read, read_start, write_start}
use network_study.AsioTrial.{Event, counted, printed, Completion, failed, came, grab_some_data}

-- asio does not read more than the buffer holds.
abbrev Fits : Completion → Type 0
Fits failed = Unit {0}
Fits (came bytes) = length bytes ≤ 20480

-- Each read with its length, up to the first that fails.
abbrev shown : List Completion → List Event
shown [] = []
shown (failed ∷ cs) = []
shown (came bytes ∷ cs) = counted (length bytes) ∷ printed bytes ∷ shown cs

grab_prints :
    (cs : List Completion) (buffer : List ℕ)
    → length buffer ≡ 20480
    → All Fits cs
    → grab_some_data cs buffer ≡ some (shown cs)
unfolding grab_some_data
grab_prints [] buffer l fits = refl
grab_prints (failed ∷ cs) buffer l fits = refl
grab_prints (came bytes ∷ cs) buffer l (fit, fits) =
    let stored = bytes ++ drop (length bytes) buffer in
    let full : length stored ≡ 20480 = omega (
      arith,
      length-append bytes (drop (length bytes) buffer),
      length-drop (length bytes) buffer,
    ) in
    let shows : read stored 0 (length bytes) ≡ some bytes =
      read_start stored (length bytes) (omega arith)
      ∙ ap some (take-append (length bytes) bytes (drop (length bytes) buffer) refl) in
    rw
      (
        grab_some_data,
        write_start buffer bytes (omega arith),
        shows,
        grab_prints cs stored full fits,
      )
      refl
