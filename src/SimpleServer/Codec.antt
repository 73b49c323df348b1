-- ===== src/SimpleServer/Codec.antt =====
-- The header of the chat protocol in memory: a uint32_t for the id, which counts the enumerators of
-- SimpleServer.cpp, and one for the size, the lowest byte first.
use network_study.Prelude.{ℕ, ◌≡◌, ◌<◌, ◌^◌, refl, List, ◌++◌, ◌==◌, if◌then◌else◌, take, drop}
use network_study.Bytes.{uint32_bytes, uint32_of, uint32_of-bytes}
use network_study.Message.{Header}
use network_study.Connection.{Codec}
use network_study.SimpleServer.{
  CustomMsgTypes, server_accept, server_deny, server_ping, message_all, server_message,
}

abbrev pub code : CustomMsgTypes → ℕ
code server_accept = 0
code server_deny = 1
code server_ping = 2
code message_all = 3
code server_message = 4

-- A value that is no enumerator cannot be told from the last one here.
abbrev pub of_code : ℕ → CustomMsgTypes
of_code n =
    if n == 0
    then server_accept
    else if n == 1
    then server_deny
    else if n == 2
    then server_ping
    else if n == 3
    then message_all
    else server_message

abbrev pub encode : Header CustomMsgTypes → List ℕ
encode h = uint32_bytes (code h.id) ++ uint32_bytes h.size

abbrev pub decode : List ℕ → Header CustomMsgTypes
decode bs = record { id = of_code (uint32_of (take 4 bs)); size = uint32_of (take 4 (drop 4 bs)) }

pub of_code-code : (t : CustomMsgTypes) → of_code (uint32_of (uint32_bytes (code t))) ≡ t
of_code-code server_accept = refl
of_code-code server_deny = refl
of_code-code server_ping = refl
of_code-code message_all = refl
of_code-code server_message = refl

pub decode-encode : (h : Header CustomMsgTypes) → h.size < 2 ^ 32 → decode (encode h) ≡ h
decode-encode h lt i = record { id = of_code-code h.id i; size = uint32_of-bytes h.size lt i }

abbrev pub codec : Codec CustomMsgTypes
codec = record {
  header_size = 8;
  encode = encode;
  decode = decode;
  length-encode = λ h. refl;
  decode-encode = decode-encode;
}
