-- ===== src/Context.antt =====
-- What net_server.h and net_client.h have in common: an object with an io_context and a thread that runs
-- its handlers. asio's io_context is an interface with its documented laws: it can be stopped, and the
-- source never restarts one. Once it is stopped, `run` returns at once, so no handler is run.
pub mod Halting
use network_study.Prelude.{
  ◌≡◌, Bool, true, false, not, ◌&&◌, List, [], ◌∷◌, Option, none, some, if◌then◌else◌,
}

pub record IoContext : Type 1 where
  pub Context : Type 0
  pub fresh : Context
  pub stop : Context → Context
  pub stopped : Context → Bool
  pub stopped-fresh : stopped fresh ≡ false
  pub stopped-stop : (c : Context) → stopped (stop c) ≡ true

-- A `std::thread`.
pub data Thread : Type 0 where
  unused : Thread
  joinable : Thread

abbrev pub is_joinable : Thread → Bool
is_joinable unused = false
is_joinable joinable = true

-- How a call ends: it returns, the program is ended by `std::terminate`, or its behaviour is undefined.
pub data Ending {ℓ} (A : Type ℓ) : Type ℓ where
  returns : A → Ending A
  terminates : Ending A
  undefined : Ending A

-- An object with its context and its thread.
pub record Hosted {ℓ} (w : IoContext) (S : Type ℓ) : Type ℓ where
  pub object : S
  pub context : w.Context
  pub thread : Thread

module _ {ℓ} {S : Type ℓ} (w : IoContext) where
  abbrev pub new_hosted : S → Hosted w S
  new_hosted object = record { object = object; context = w.fresh; thread = unused }

  -- `m_threadContext = std::thread(...)`: to assign to a thread that has not been joined ends the program.
  -- The result is true, as that of the functions that do it.
  unfoldable pub launch : S → Hosted w S → Ending (Bool × Hosted w S)
  launch object h = elim h.thread [
    | unused ↦ returns (true, record h { object = object; thread = joinable })
    | joinable ↦ terminates
  ]

  -- `m_asioContext.stop()`, and the thread is joined if it can be.
  unfoldable pub halt : Hosted w S → Hosted w S
  halt h = record h { context = w.stop h.context; thread = unused }

  -- Whether the thread runs handlers.
  abbrev pub runs : Hosted w S → Bool
  runs h = is_joinable h.thread && not (w.stopped h.context)

  -- A handler that could be run next.
  unfoldable pub handle : (S → Option S) → Hosted w S → Ending (Hosted w S)
  handle f h =
      if runs h
      then elim (f h.object) [
        | none ↦ undefined
        | some object ↦ returns (record h { object = object })
      ]
      else returns h

  unfoldable pub handle_all : List (S → Option S) → Hosted w S → Ending (Hosted w S)
  unfolding handle
  handle_all [] h = returns h
  handle_all (f ∷ fs) h = elim (handle f h) [
    | returns t ↦ handle_all fs t
    | terminates ↦ terminates
    | undefined ↦ undefined
  ]
