-- ===== src/Tests/Lines.antt =====
-- The progress sink of src/engines/progress.rs on a channel that is full.
use dfdisk.Prelude.{ℕ, ◌+◌, ◌≡◌, refl, true, List, [], ◌∷◌, ◌++◌, map, codes}
use dfdisk.Progress.{
  cap_log, ProgressTelemetry, Wire, Call, log, warn, receive, finish, calls, call, forward,
  take_update, push_log, has_room, put_back, receive_one, apply_update, finish_sink, deliver,
  receive_many,
}
use dfdisk.Progress.Delivered.{
  all_lines, all_logged, all_keep_lines, keeps_lines, still_connected, calls-lines,
}

abbrev fresh : ProgressTelemetry ℕ
fresh = record { fields = 0; status_message = codes "Ready"; log_messages = [] }

-- Room for one update.
abbrev new_wire : Wire ℕ
new_wire = record {
  connected = true;
  state = fresh;
  warnings = [];
  capacity = 1;
  queue = [];
  consumer = fresh;
}

abbrev some_calls : List (Call ℕ)
some_calls =
    log (codes "one")
    ∷ log (codes "two")
    ∷ warn (codes "three")
    ∷ receive
    ∷ finish (λ n. n + 1) (codes "done") 0
    ∷ []

lines_kept : all_keep_lines ℕ true some_calls ≡ true
unfolding all_keep_lines keeps_lines still_connected
lines_kept = refl

calls-lines_example :
    cap_log (all_lines ℕ (calls ℕ some_calls new_wire))
    ≡ cap_log (all_lines ℕ new_wire ++ all_logged ℕ some_calls)
calls-lines_example = calls-lines ℕ some_calls new_wire lines_kept

-- The second and third line waited for room, and went with the last.
last_update :
    map (λ (u : ProgressTelemetry ℕ). u.log_messages) (calls ℕ some_calls new_wire).queue
    ≡ (codes "two" ∷ codes "WARNING: three" ∷ codes "done" ∷ []) ∷ []
unfolding calls call forward take_update push_log has_room put_back receive_one apply_update
    finish_sink deliver receive_many cap_log
last_update = refl
