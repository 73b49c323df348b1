-- ===== src/ServerMain/Serving.antt =====
-- What a round of the loop of Server.cpp does while no client leaves.
use network_study.Prelude.{
  ℕ, ◌≡◌, ◌≤◌, ◌<◌, inl, inr, refl, ap, ◌∙◌, ◌==◌, Bool, true, [], ◌∷◌, some, if◌then◌else◌, ltb,
  length, All, All-append, Bool-cases, arith, replicate,
}
use network_study.Prelude.Int.{ℤ, pos, negsuc}
use network_study.Bytes.{write, padded, write-replicate, has_end-padded}
use network_study.SimpleSocket.{zeros}
use network_study.Select.{Received, ended, failed, bytes, Round, greeting, FdSets, Flow, go}
use network_study.ServerMain.{
  Event, error, closed, exited, greeted, printed, Server, event, accept_client, read_client, handle,
}

-- At least one byte, and room for the end of the text.
abbrev pub Talks : Received → Type 0
Talks ended = ⊥
Talks failed = ⊥
Talks (bytes x xs) = length (x ∷ xs) ≤ 4095

-- A descriptor that is an int, and not the greatest, if there is one.
abbrev pub IsInt : ℤ → Type 0
IsInt (pos n) = n < 2147483647
IsInt (negsuc n) = Unit {0}

-- No socket is closed, and the program does not end.
abbrev pub IsKept : Event → Type 0
IsKept (closed fd) = ⊥
IsKept exited = ⊥
IsKept _ = Unit {0}

zeros_lem : zeros ≡ replicate 4096 0
unfolding zeros
zeros_lem = refl

module _ (w : FdSets) where
  -- Every watched socket is at most maxfd, which is an int, the buffer is cleared, and no socket has
  -- been closed.
  pub record Tracks (s : Server w.FdSet) : Type 0 where
    pub below : (a : ℕ) → w.is_set a s.masterfds ≡ true → a ≤ s.maxfd
    pub int : s.maxfd ≤ 2147483646
    pub clear : s.buffer ≡ zeros
    pub kept : All IsKept s.events

  abbrev pub Keeps : Server w.FdSet → Flow (Server w.FdSet) → Type 0
  Keeps s f = (u : Server w.FdSet) × (f ≡ go u) × Tracks u × (s.maxfd ≤ u.maxfd)

  event-Tracks : (e : Event) (s : Server w.FdSet) → IsKept e → Tracks s → Tracks (event w e s)
  event-Tracks e s k v = record {
    below = v.below;
    int = v.int;
    clear = v.clear;
    kept = All-append IsKept s.events (e ∷ []) v.kept (k, tt);
  }

  accept_client-Tracks :
      (accepted : ℤ) (name_found : Bool) (s : Server w.FdSet)
      → IsInt accepted
      → Tracks s
      → let t = accept_client w accepted name_found s in Tracks t × (s.maxfd ≤ t.maxfd)
  unfolding accept_client
  accept_client-Tracks (negsuc n) name_found s small v = (event-Tracks error s tt v, omega arith)
  accept_client-Tracks (pos fd) name_found s small v =
      let top = if ltb s.maxfd fd then fd else s.maxfd in
      let grown : (s.maxfd ≤ top) × (fd ≤ top) × (top ≤ 2147483646) =
        let old = v.int in ground arith in
      let t = record s { masterfds = w.set fd s.masterfds; maxfd = top } in
      let next : Tracks t = record {
        below = λ a h. elim (w.set_only a fd s.masterfds h) [
          | inl e ↦ let new = grown.1 in omega arith
          | inr old ↦ let first = v.below a old in let more = grown.0 in omega arith
        ];
        int = grown.2;
        clear = v.clear;
        kept = v.kept;
      } in
      elim (Bool-cases name_found) [
        | inl found ↦ rw found (event-Tracks (greeted fd greeting) t tt next, grown.0)
        | inr unknown ↦ rw unknown (next, grown.0)
      ]

  read_client-Keeps :
      (r : Received) (fd : ℕ) (s : Server w.FdSet)
      → Talks r
      → Tracks s
      → Keeps s (read_client w r fd s)
  unfolding read_client
  read_client-Keeps ended fd s talks v = absurd talks
  read_client-Keeps failed fd s talks v = absurd talks
  read_client-Keeps (bytes x xs) fd s talks v =
      let b = padded 4096 (x ∷ xs) in
      let stored : write s.buffer 0 (x ∷ xs) ≡ some b =
        ap (λ buffer. write buffer 0 (x ∷ xs)) (v.clear ∙ zeros_lem)
        ∙ write-replicate 4096 (x ∷ xs) (omega arith) in
      (
        event w (printed b) (record s { buffer = zeros }),
        rw (read_client, stored, has_end-padded 4096 (x ∷ xs) (omega arith)) refl,
        event-Tracks (printed b) (record s { buffer = zeros }) tt
            (record { below = v.below; int = v.int; clear = refl; kept = v.kept }),
        omega arith,
      )

  pub handle-Keeps :
      (r : Round w.FdSet) (fd : ℕ) (s : Server w.FdSet)
      → IsInt r.accepted
      → Talks (r.received fd)
      → Tracks s
      → Keeps s (handle w r fd s)
  unfolding handle
  handle-Keeps r fd s small talks v = elim (Bool-cases (s.master_socket == fd)) [
    | inl master ↦
        let (u, grown) = accept_client-Tracks r.accepted r.name_found s small v in
        (accept_client w r.accepted r.name_found s, rw (handle, master) refl, u, grown)
    | inr client ↦ rw (handle, client) (read_client-Keeps (r.received fd) fd s talks v)
  ]
