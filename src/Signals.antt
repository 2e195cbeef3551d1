-- ===== src/Signals.antt =====
-- src/signals.rs: the abort, force and headless flags of a run. The atomics are one record of
-- plain values: each method below is one sequence of atomic operations, applied in one step.
pub mod Latches
use dfdisk.Prelude.{
  ℕ, zero, suc, Bool, true, false, Option, none, some, List, [], ◌∷◌, if◌then◌else◌, ◌==◌,
}

pub data SignalKind : Type 0 where
  interrupt terminate hangup quit : SignalKind

abbrev code : SignalKind → ℕ
code interrupt = 1
code terminate = 2
code hangup = 3
code quit = 4

abbrev from_code : ℕ → Option SignalKind
from_code c =
    if c == 1
    then some interrupt
    else if c == 2
    then some terminate
    else if c == 3
    then some hangup
    else if c == 4
    then some quit
    else none

-- What a signal, or a request of the user interface, did.
pub data SignalAction : Type 0 where
  abort force headless unchanged : SignalAction

-- `StopFlags`
pub record StopFlags : Type 0 where
  pub abort : Bool
  pub force : Bool

-- `AbortController`; `last_signal` holds a code, 0 for none.
pub record AbortController : Type 0 where
  pub stop : StopFlags
  pub headless : Bool
  pub last_signal : ℕ

unfoldable pub new : AbortController
new = record { stop = record { abort = false; force = false }; headless = false; last_signal = 0 }

abbrev pub is_aborted : AbortController → Bool
is_aborted c = c.stop.abort

abbrev pub is_forced : AbortController → Bool
is_forced c = c.stop.force

unfoldable pub last_signal : AbortController → Option SignalKind
last_signal c = from_code c.last_signal

-- `swap(true)` reads the old value and sets the flag.
unfoldable pub request_abort : AbortController → AbortController × SignalAction
request_abort c = (
  record c { stop = record { abort = true; force = c.stop.force } },
  if c.stop.abort then unchanged else abort,
)

unfoldable pub request_force : AbortController → AbortController × SignalAction
request_force c = (
  record c { stop = record { abort = true; force = true } },
  if c.stop.force then unchanged else force,
)

-- the branch of `handle` on SIGINT
on_interrupt : AbortController → AbortController × SignalAction
on_interrupt c =
    let old = c.stop.abort in
    let d = record c { stop = record { abort = true; force = c.stop.force } } in
    if old then request_force d else (d, abort)

on_hangup : AbortController → AbortController × SignalAction
on_hangup c = (record c { headless = true }, if c.headless then unchanged else headless)

-- the `match` of `handle`
dispatch : SignalKind → AbortController → AbortController × SignalAction
unfolding on_interrupt on_hangup request_force request_abort
dispatch interrupt c = on_interrupt c
dispatch terminate c = request_abort c
dispatch quit c = request_abort c
dispatch hangup c = on_hangup c

unfoldable pub handle : AbortController → SignalKind → AbortController × SignalAction
unfolding dispatch
handle c signal = dispatch signal (record c { last_signal = code signal })

unfoldable pub reset : AbortController → AbortController
reset c = record c { stop = record { abort = false; force = false }; last_signal = 0 }

-- The loop of `install`: every signal is handled in order, and sent on with what it did.
unfoldable pub listen :
    AbortController → List SignalKind → AbortController × List (SignalKind × SignalAction)
listen c [] = (c, [])
listen c (kind ∷ kinds) =
    let (d, action) = handle c kind in
    let (e, events) = listen d kinds in (e, (kind, action) ∷ events)
