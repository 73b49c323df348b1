-- ===== src/AsioTrial.antt =====
-- boost_asio_olc/AsioProject.cpp: a trial of asio, which asks a server for a page and prints what comes.
-- asio is not modelled: which reads complete, and with what, is an argument.
pub mod Printing
use network_study.Prelude.{
  ℕ, ◌*◌, Bool, List, [], ◌∷◌, ◌++◌, Option, none, some, ◌>>=◌, if◌then◌else◌, length, take,
  replicate, codes,
}
use network_study.Bytes.{read, write}

-- What is printed and sent, one after another.
pub data Event : Type 0 where
  connected : Event
  not_connected : (message : List ℕ) → Event
  requested : (request : List ℕ) → Event
  counted : (length : ℕ) → Event
  printed : (bytes : List ℕ) → Event

-- vBuffer, before anything has been read.
unfoldable pub new_buffer : List ℕ
new_buffer = replicate (20 * 1024) 0

-- How one `async_read_some` completes: with an error, or with bytes that are in the buffer.
pub data Completion : Type 0 where
  failed : Completion
  came : List ℕ → Completion

-- `GrabSomeData`, over the reads that complete, with what is in the buffer: it asks again after each that
-- has not failed.
unfoldable pub grab_some_data : List Completion → List ℕ → Option (List Event)
unfolding read write
grab_some_data [] buffer = some []
grab_some_data (failed ∷ cs) buffer = some []
grab_some_data (came bytes ∷ cs) buffer = do
  stored ← write buffer 0 bytes
  shown ← read stored 0 (length bytes)
  rest ← grab_some_data cs stored
  some (counted (length bytes) ∷ printed shown ∷ rest)

abbrev pub request : List ℕ
request =
    codes "GET /index.html HTTP/1.1\r\n"
    ++ (codes "Host: example.com\r\n" ++ codes "Connection: close\r\n\r\n")

-- What is printed once `connect` has returned.
abbrev pub outcome : Option (List ℕ) → Event
outcome none = connected
outcome (some message) = not_connected message

-- `testAsio`: whether the connection fails and with which message, whether the socket is open, and the
-- reads that complete until the context is stopped. The request is sent while the first read waits: as
-- many of its bytes as `write_some` takes, none if it fails, which is not looked at.
unfoldable pub test_asio : Option (List ℕ) → Bool → ℕ → List Completion → Option (List Event)
unfolding grab_some_data
test_asio error is_open taken cs =
    if is_open
    then (grab_some_data cs new_buffer >>= λ es.
        some (outcome error ∷ requested (take taken request) ∷ es))
    else some (outcome error ∷ [])
