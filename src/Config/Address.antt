-- ===== src/Config/Address.antt =====
-- The address in config.txt, and who uses it.
use network_study.Prelude.{
  ℕ, ◌≡◌, ◌≢◌, ◌≤◌, ◌<◌, refl, ap, ◌∙◌, true, false, List, [], ◌∷◌, ◌++◌, none, some, ◌>>=◌, ◌==◌,
  length, drop, replicate, map, arith, Bool-cases, inl, inr, All, codes, length-append,
  append_assoc,
}
use network_study.Prelude.Int.{pos, negsuc, is_positive}
use network_study.Bytes.{c_string, write, read_out, write_start}
use network_study.MemDb.{Str, MemDb, set_value}
use network_study.MemDb.Values.{get_value-set_value_self}
use network_study.SimpleSocket.{SimpleSocket, fault, zeros, copy, send_packet}
use network_study.SimpleSocket.Server.{Calls}
use network_study.Config.{
  opened, without_newline, line_buffer, load_config, server_address_of, TcpSocket, init_tcp,
  sending_packet,
}

-- No end of a line, and no end of a text.
abbrev pub Plain : ℕ → Type 0
Plain c = (c ≢ 0) × (c ≢ 10) × (c ≢ 13)

-- Nothing, or a line end first.
abbrev pub EndsLine : List ℕ → Type 0
EndsLine [] = Unit {0}
EndsLine (c ∷ cs) = without_newline c ≡ 0

c_string-line :
    (xs rest : List ℕ)
    → All Plain xs
    → EndsLine rest
    → c_string (map without_newline (xs ++ rest)) ≡ xs
c_string-line [] [] p e = refl
c_string-line [] (c ∷ cs) p e = rw e refl
c_string-line (x ∷ xs) rest ((nul, newline, return), p) e =
    let plain : without_newline x ≡ x = ground arith in
    let more : (x == 0) ≡ false = ground arith in
    rw (plain, more) (ap (λ ys. x ∷ ys) (c_string-line xs rest p e))

EndsLine-append : (rest tail : List ℕ) → EndsLine rest → EndsLine (rest ++ (0 ∷ tail))
EndsLine-append [] tail e = refl
EndsLine-append (c ∷ cs) tail e = e

-- The line as `LoadConfig` reads it.
load_config-line :
    (xs rest : List ℕ) (address : Str)
    → All Plain xs
    → EndsLine rest
    → length (xs ++ rest) ≤ 31
    → load_config (opened (some (xs ++ rest))) address ≡ some xs
unfolding load_config line_buffer write
load_config-line xs rest address p e fits =
    let line = xs ++ rest in
    let blank : List ℕ = replicate 32 0 in
    let stored = line ++ (0 ∷ []) in
    let tail = drop (length stored) blank in
    let written : write blank 0 stored ≡ some (stored ++ tail) =
      write_start blank stored (omega (arith, length-append line (0 ∷ []))) in
    let regroup : stored ++ tail ≡ xs ++ (rest ++ (0 ∷ tail)) =
      append_assoc line (0 ∷ []) tail ∙ append_assoc xs rest (0 ∷ tail) in
    ap (λ o. o >>= λ addr. some (c_string (map without_newline addr))) written
    ∙ ap (λ ys. some (c_string (map without_newline ys))) regroup
    ∙ ap some (c_string-line xs (rest ++ (0 ∷ tail)) p (EndsLine-append rest tail e))

-- The address in the first line of config.txt, up to its line end and of at most 31 characters with
-- it, is the one that `Init` of the socket hands on if the socket could be made, unless another is stored
-- under "serveraddress" and is not empty. What was configured before does not matter. If the socket could
-- not be made, nothing is handed on.
pub configured_address :
    (xs rest : List ℕ) (before v : Str) (db : MemDb) (sock : ℕ) (tcp : TcpSocket)
    → All Plain xs
    → EndsLine rest
    → length (xs ++ rest) ≤ 31
    → let stored = set_value (codes "serveraddress") v db in
      (address : Str) × (load_config (opened (some (xs ++ rest))) before ≡ some address)
      × (init_tcp (pos sock) address stored tcp ≡ record {
        sock = pos sock;
        server_address = some (elim v [ [] ↦ xs | c ∷ cs ↦ c ∷ cs ]);
      })
      × ((init_tcp (negsuc 0) address stored tcp).server_address ≡ tcp.server_address)
unfolding server_address_of init_tcp
configured_address xs rest before v db sock tcp p e fits =
    let value = get_value-set_value_self (codes "serveraddress") v db in
    (
      xs,
      load_config-line xs rest before p e fits,
      ap
          (λ w. record {
            sock = pos sock;
            server_address = some (elim w as (λ _. Str) [ [] ↦ xs | c ∷ cs ↦ c ∷ cs ]);
          })
          value,
      refl,
    )

copy_short : (dst src : List ℕ) (n : ℕ) → length src < n → copy dst src (pos n) ≡ none
unfolding copy
copy_short dst src n short = rw (read_out src 0 n (omega arith)) refl

send_packet_short :
    (message : List ℕ) (n : ℕ) (s : SimpleSocket)
    → length message < n
    → send_packet message (pos n) s ≡ none
unfolding send_packet
send_packet_short message n s short = elim (Bool-cases (is_positive s.send_buffer.total_size)) [
  | inl busy ↦ rw (busy, copy_short zeros message n short) refl
  | inr idle ↦ rw (idle, copy_short s.send_buffer.buffer message n short) refl
]

-- The sending thread reads as many bytes of its message as a pointer has: past the end of a shorter
-- one, such as "hello", in the first round.
sending_packet-fault :
    (fuel : ℕ) (message : List ℕ) (calls : Calls) (rounds : List Calls) (s : SimpleSocket)
    → length message < 8
    → sending_packet fuel message true (calls ∷ rounds) s ≡ fault
unfolding sending_packet
sending_packet-fault fuel message calls rounds s short =
    rw (sending_packet, send_packet_short message 8 s short) refl
