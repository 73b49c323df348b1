-- ===== src/Message.antt =====
-- boost_asio_olc/NetCommon/net_message.h: a header, and a body that is used as a stack of values.
-- A value is the list of its `sizeof(DataType)` bytes; `T` is the type of the message ids.
pub mod RoundTrip
use network_study.Prelude.{
  ℕ, ◌+◌, ◌-◌, ◌%◌, ◌^◌, List, [], ◌∷◌, ◌++◌, Option, none, some, ◌>>=◌, length, codes,
}
use network_study.Prelude.Int.{ℤ, pos}
use network_study.Bytes.{resize, read, write}

-- `size` is a uint32_t.
pub record Header {ℓ} (T : Type ℓ) : Type ℓ where
  pub id : T
  pub size : ℕ

pub record Message {ℓ} (T : Type ℓ) : Type ℓ where
  pub header : Header T
  pub body : List ℕ

-- The conversion of a size_t to the uint32_t of the header.
abbrev pub to_uint32 : ℕ → ℕ
to_uint32 n = n % 2 ^ 32

-- Subtraction of size_t, which wraps.
abbrev pub sub_size : ℕ → ℕ → ℕ
sub_size a b = (a + (2 ^ 64 - b)) % 2 ^ 64

module _ {ℓ} {T : Type ℓ} where
  -- `message<T> msg; msg.header.id = id;`
  abbrev pub new_message : T → Message T
  new_message id = record { header = record { id = id; size = 0 }; body = [] }

  -- `message::size`: the size of the body.
  abbrev pub size : Message T → ℕ
  size msg = length msg.body

  -- `msg << data`
  unfoldable pub push : Message T → List ℕ → Option (Message T)
  push msg d = do
    let i = length msg.body
    body ← write (resize msg.body (length msg.body + length d)) i d
    some (record {
      header = record { id = msg.header.id; size = to_uint32 (length body) };
      body = body;
    })

  -- `msg >> data`, with `n = sizeof(DataType)`; the result holds the bytes that `data` receives.
  unfoldable pub pull : ℕ → Message T → Option (List ℕ × Message T)
  pull n msg = do
    let i = sub_size (length msg.body) n
    d ← read msg.body i n
    let rest = resize msg.body i
    some (
      d,
      record {
        header = record { id = msg.header.id; size = to_uint32 (length rest) };
        body = rest;
      },
    )

  -- A chain `msg << d << …`.
  unfoldable pub push_all : Message T → List (List ℕ) → Option (Message T)
  push_all msg [] = some msg
  push_all msg (d ∷ ds) = push msg d >>= λ msg'. push_all msg' ds

  -- A chain `msg >> d >> …`, given the sizes of the values.
  unfoldable pub pull_all : List ℕ → Message T → Option (List (List ℕ) × Message T)
  pull_all [] msg = some ([], msg)
  pull_all (n ∷ ns) msg = pull n msg >>= λ r. pull_all ns r.1 >>= λ s. some (r.0 ∷ s.0, s.1)

  -- The text of a message on an ostream, where `code` is the id as an int.
  unfoldable pub describe : (ℤ → List ℕ) → (T → ℤ) → Message T → List ℕ
  describe print code msg =
      codes "ID: "
      ++ (print (code msg.header.id) ++ (codes " Size:" ++ print (pos msg.header.size)))
