-- ===== src/Select.antt =====
-- What NewServer.cpp and Server.cpp share: sets of sockets, what the calls of winsock return in a round,
-- and the walk over all numbers up to the greatest. winsock's fd_set is an interface: its laws are the
-- documented ones, and a set that has no more room ignores what is added.
pub mod Scan
use network_study.Prelude.Int.{ℤ}
use network_study.Prelude.{
  ℕ, zero, suc, ◌+◌, ◌≡◌, ◌⊎◌, ◌==◌, Bool, true, false, List, [], ◌∷◌, if◌then◌else◌, leb, ◌++◌,
  codes,
}

pub record FdSets : Type 1 where
  pub FdSet : Type 0
  pub empty : FdSet
  pub set : ℕ → FdSet → FdSet
  pub clr : ℕ → FdSet → FdSet
  pub is_set : ℕ → FdSet → Bool
  pub has_room : FdSet → Bool
  pub is_set-empty : (a : ℕ) → is_set a empty ≡ false
  pub set_has : (a : ℕ) (s : FdSet) → has_room s ≡ true → is_set a (set a s) ≡ true
  pub set_keeps : (a b : ℕ) (s : FdSet) → is_set a s ≡ true → is_set a (set b s) ≡ true
  pub set_only : (a b : ℕ) (s : FdSet) → is_set a (set b s) ≡ true → (b ≡ a) ⊎ (is_set a s ≡ true)
  pub is_set-clr :
      (a b : ℕ) (s : FdSet) → is_set a (clr b s) ≡ (if b == a then false else is_set a s)

-- How a piece of code ends: it goes on, it returns from the function around it, it goes out of bounds,
-- or it has not ended within the rounds that are looked at.
pub data Flow {ℓ} (S : Type ℓ) : Type ℓ where
  go : S → Flow S
  ret : S → Flow S
  fault : Flow S
  running : Flow S

abbrev pub then_flow {ℓ} : {S : Type ℓ} → Flow S → (S → Flow S) → Flow S
then_flow (go s) k = k s
then_flow (ret s) k = ret s
then_flow fault k = fault
then_flow running k = running

-- INT_MAX
abbrev pub int_max : ℕ
int_max = 2147483647

module _ {ℓ} {S : Type ℓ} (maxfd : S → ℕ) (ready : ℕ → Bool) (step : ℕ → S → Flow S) where
  -- `for (fd = i; fd <= maxfd; ++fd) if (FD_ISSET(fd, &tempfds)) ...`, where the body may change maxfd.
  -- `fd` is an int, and to count past the last one is undefined.
  unfoldable pub for_fds : ℕ → ℕ → S → Flow S
  for_fds zero i s = running
  for_fds (suc fuel) i s = elim (leb i int_max) [
    | false ↦ fault
    | true ↦ elim (leb i (maxfd s)) [
      | false ↦ go s
      | true ↦ elim (ready i) [
        | false ↦ for_fds fuel (i + 1) s
        | true ↦ elim (step i s) [
          | go t ↦ for_fds fuel (i + 1) t
          | ret t ↦ ret t
          | fault ↦ fault
          | running ↦ running
        ]
      ]
    ]
  ]

-- The numbers of `count` many from `i` on that are ready.
abbrev pub ready_from : (ℕ → Bool) → ℕ → ℕ → List ℕ
ready_from ready zero i = []
ready_from ready (suc count) i =
    let rest = ready_from ready count (i + 1) in if ready i then i ∷ rest else rest

-- One after the other, until one returns.
unfoldable pub serve_each {ℓ} : {S : Type ℓ} → (ℕ → S → Flow S) → List ℕ → S → Flow S
serve_each step [] s = go s
serve_each step (i ∷ is) s = then_flow (step i s) (serve_each step is)

-- What `recv` gives: no more bytes, an error, or at least one byte.
pub data Received : Type 0 where
  ended : Received
  failed : Received
  bytes : ℕ → List ℕ → Received

-- What the calls of winsock return in one round: `select` with the set that it leaves, `accept`, whether
-- `getnameinfo` finds a name, and `recv` for each socket.
pub record Round (FdSet : Type 0) : Type 0 where
  pub select_fails : Bool
  pub reported : FdSet
  pub accepted : ℤ
  pub name_found : Bool
  pub received : ℕ → Received

-- The first message to a client, with its end.
abbrev pub greeting : List ℕ
greeting = codes "[SERVER] Connected" ++ (0 ∷ [])
