-- ===== src/Signals/Latches.antt =====
-- src/signals.rs: what the flags say after any sequence of signals, requests and resets.
use dfdisk.Prelude.{
  ℕ, ◌+◌, ◌≤◌, ◌≡◌, Bool, true, false, not, ◌||◌, Option, none, some, List, [], ◌∷◌, arith,
  if◌then◌else◌,
}
use dfdisk.Signals.{
  SignalKind, interrupt, terminate, hangup, quit, SignalAction, abort, force, headless, unchanged,
  AbortController, new, last_signal, is_aborted, is_forced, request_abort, request_force, handle,
  reset, listen,
}

-- The signals that stop a run: all but SIGHUP.
abbrev pub stops : SignalKind → Bool
stops hangup = false
stops _ = true

abbrev pub any_stop : List SignalKind → Bool
any_stop [] = false
any_stop (k ∷ ks) = stops k || any_stop ks

abbrev is_interrupt : SignalKind → Bool
is_interrupt interrupt = true
is_interrupt _ = false

abbrev pub any_interrupt : List SignalKind → Bool
any_interrupt [] = false
any_interrupt (k ∷ ks) = is_interrupt k || any_interrupt ks

-- An interrupt stands behind the first signal that stops the run.
abbrev pub interrupt_again : List SignalKind → Bool
interrupt_again [] = false
interrupt_again (k ∷ ks) = if stops k then any_interrupt ks else interrupt_again ks

abbrev pub any_hangup : List SignalKind → Bool
any_hangup [] = false
any_hangup (hangup ∷ ks) = true
any_hangup (_ ∷ ks) = any_hangup ks

abbrev pub last_of : List SignalKind → Option SignalKind → Option SignalKind
last_of [] d = d
last_of (k ∷ ks) d = last_of ks (some k)

-- The flags after a run, read off the signals.
listen-flags :
    (c : AbortController) (ks : List SignalKind)
    → (is_aborted (listen c ks).0 ≡ (is_aborted c || any_stop ks))
      × (is_forced (listen c ks).0
          ≡ (is_forced c || (if is_aborted c then any_interrupt ks else interrupt_again ks)))
      × ((listen c ks).0.headless ≡ (c.headless || any_hangup ks))
      × (last_signal (listen c ks).0 ≡ last_of ks (last_signal c))
unfolding listen handle last_signal
listen-flags c [] = ground arith
listen-flags c (interrupt ∷ ks) = ground (arith, listen-flags (handle c interrupt).0 ks)
listen-flags c (terminate ∷ ks) = ground (arith, listen-flags (handle c terminate).0 ks)
listen-flags c (hangup ∷ ks) = ground (arith, listen-flags (handle c hangup).0 ks)
listen-flags c (quit ∷ ks) = ground (arith, listen-flags (handle c quit).0 ks)

-- From a new controller, after any signals in order: the run is aborted exactly if one of them was
-- not SIGHUP, forced exactly if a SIGINT came after the first such signal, headless exactly if a
-- SIGHUP came, and the last signal is the last of the list.
pub listen-new :
    (ks : List SignalKind)
    → (is_aborted (listen new ks).0 ≡ any_stop ks)
      × (is_forced (listen new ks).0 ≡ interrupt_again ks)
      × ((listen new ks).0.headless ≡ any_hangup ks)
      × (last_signal (listen new ks).0 ≡ last_of ks none)
unfolding new last_signal
listen-new ks = listen-flags new ks

-- One step of the program on its controller: a signal, a request of the user interface, or the
-- reset between two runs.
pub data Step (c : AbortController) : AbortController → Type 0 where
  signal : (k : SignalKind) → Step c (handle c k).0
  abort_request : Step c (request_abort c).0
  force_request : Step c (request_force c).0
  cleared : Step c (reset c)

pub data Reach : AbortController → Type 0 where
  start : Reach new
  next : {c d : AbortController} → Reach c → Step c d → Reach d

pub record Inv (c : AbortController) : Type 0 where
  pub force_aborts : (not (is_forced c) || is_aborted c) ≡ true
  pub code_known : c.last_signal ≤ 4

-- `headless` is never cleared.
pub Step-headless : {c d : AbortController} → Step c d → c.headless ≡ true → d.headless ≡ true
unfolding handle request_abort request_force reset
Step-headless {c} (signal interrupt) h = ground arith
Step-headless {c} (signal terminate) h = ground arith
Step-headless {c} (signal hangup) h = ground arith
Step-headless {c} (signal quit) h = ground arith
Step-headless abort_request h = h
Step-headless force_request h = h
Step-headless cleared h = h

abbrev same_action : SignalAction → SignalAction → Bool
same_action abort abort = true
same_action force force = true
same_action headless headless = true
same_action unchanged unchanged = true
same_action _ _ = false

abbrev pub count_action : SignalAction → List (SignalKind × SignalAction) → ℕ
count_action a [] = 0
count_action a ((k, b) ∷ es) = (if same_action a b then 1 else 0) + count_action a es

abbrev pub flag : Bool → ℕ
flag b = if b then 1 else 0

-- Over any signals from any state, `Abort`, `Force` and `Headless` are each announced exactly once
-- if they change the flag that they name, and never otherwise.
pub listen-announces :
    (c : AbortController) (ks : List SignalKind)
    → (flag (is_aborted c) + count_action abort (listen c ks).1 ≡ flag (is_aborted (listen c ks).0))
      × (flag (is_forced c) + count_action force (listen c ks).1 ≡ flag (is_forced (listen c ks).0))
      × (flag c.headless + count_action headless (listen c ks).1 ≡ flag (listen c ks).0.headless)
unfolding listen handle
listen-announces c [] = ground arith
listen-announces c (interrupt ∷ ks) = ground (arith, listen-announces (handle c interrupt).0 ks)
listen-announces c (terminate ∷ ks) = ground (arith, listen-announces (handle c terminate).0 ks)
listen-announces c (hangup ∷ ks) = ground (arith, listen-announces (handle c hangup).0 ks)
listen-announces c (quit ∷ ks) = ground (arith, listen-announces (handle c quit).0 ks)
