-- ===== src/Tests/Flags.antt =====
-- src/signals.rs on concrete signals.
use dfdisk.Prelude.{◌+◌, ◌≡◌, refl, true, some, List, [], ◌∷◌}
use dfdisk.Signals.{
  SignalKind, interrupt, terminate, hangup, abort, force, headless, new, last_signal, is_aborted,
  is_forced, handle, reset, listen,
}
use dfdisk.Signals.Latches.{
  cleared, listen-new, Step-headless, listen-announces, count_action, flag,
}

abbrev hangup_then_twice : List SignalKind
hangup_then_twice = hangup ∷ interrupt ∷ terminate ∷ interrupt ∷ []

listen-new_example :
    (is_aborted (listen new hangup_then_twice).0 ≡ true)
    × (is_forced (listen new hangup_then_twice).0 ≡ true)
    × ((listen new hangup_then_twice).0.headless ≡ true)
    × (last_signal (listen new hangup_then_twice).0 ≡ some interrupt)
listen-new_example = listen-new hangup_then_twice

listen-announces_example :
    (flag (is_aborted new) + count_action abort (listen new hangup_then_twice).1
      ≡ flag (is_aborted (listen new hangup_then_twice).0))
    × (flag (is_forced new) + count_action force (listen new hangup_then_twice).1
        ≡ flag (is_forced (listen new hangup_then_twice).0))
    × (flag new.headless + count_action headless (listen new hangup_then_twice).1
        ≡ flag (listen new hangup_then_twice).0.headless)
listen-announces_example = listen-announces new hangup_then_twice

stays_headless : (handle new hangup).0.headless ≡ true
unfolding handle
stays_headless = refl

Step-headless_example : (reset (handle new hangup).0).headless ≡ true
Step-headless_example = Step-headless cleared stays_headless
