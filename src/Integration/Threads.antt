-- ===== src/Integration/Threads.antt =====
-- The program of the integration test: main_integration.go.
pub mod Laws
use ezproxy.Base.{ℕ, ◌+◌, ◌-◌, Bool, ◌==◌, Option, none, some, if◌then◌else◌}
use ezproxy.Errors.{Error, main_closed, Result, ok, err}
use ezproxy.Context.{Contexts, with_cancel, cancel, cause_of}
use ezproxy.Handler.State.{Addr}

-- threadManager: its wait group and its context
pub record ThreadManager : Type 0 where
  pub wg : ℕ
  pub ctx : ℕ

-- NewThreadManager
unfoldable pub new_thread_manager : ℕ → Contexts → ThreadManager × Contexts
new_thread_manager ctx s =
    let (contexts, own) = with_cancel s ctx in (record { wg = 0; ctx = own }, contexts)

-- Run returns once the goroutine has added itself to the wait group, or the context is over; the
-- goroutine, which sends on a channel that is no longer read then, has been counted or will be.
unfoldable pub run : ThreadManager → ThreadManager
run t = record t { wg = t.wg + 1 }

-- The end of the goroutine that Run starts
unfoldable pub finish : ThreadManager → ThreadManager
finish t = record t { wg = t.wg - 1 }

-- Join: none while it waits; `first` says which case the select takes when both are ready.
unfoldable pub join : Bool → Contexts → ThreadManager → Option (Option Error)
join first s t =
    let all_done : Option (Option Error) = if t.wg == 0 then some none else none in
    elim (cause_of s t.ctx) [
      | none ↦ all_done
      | some e ↦ if first then some (some e) else if t.wg == 0 then some none else some (some e)
    ]

-- How main goes: an address that cannot be resolved, or what Join is called with, after the goroutine has
-- ended or not.
pub data Ended : Type 0 where
  unresolved : Error → Ended
  joins : ThreadManager → Contexts → Ended

-- main, under the root context of the store, up to Join
unfoldable pub start : Result Addr → Result Addr → ℕ → Contexts → Ended
unfolding new_thread_manager run
start server proxy root s = elim server [
  | err e ↦ unresolved e
  | ok a ↦ elim proxy [
    | err e ↦ unresolved e
    | ok b ↦
        let (own, c) = with_cancel s root in
        let (t, contexts) = new_thread_manager c own in joins (run t) contexts
  ]
]

-- The deferred cancel of main
unfoldable pub leave : ℕ → Contexts → Contexts
leave c s = cancel s c main_closed
