-- ===== src/Progress.antt =====
-- src/engines/progress.rs and src/models/telemetry.rs: the sink that forwards the progress of a run
-- without blocking it. The fields of the telemetry that the sink only copies are one value of a type
-- that is a parameter; the channel is a bounded queue with its consumer.
pub mod Lasting
pub mod Delivered
use dfdisk.Prelude.{
  ℕ, zero, suc, ◌+◌, ◌-◌, ◌*◌, ◌/◌, ◌%◌, ◌^◌, ◌≤◌, ◌<◌, min, max, ◌≡◌, refl, sym, ap, ◌∙◌, ◌≢◌, ◌↔◌,
  ◌⊎◌, inl, inr, Bool, true, false, not, ◌&&◌, ◌||◌, Option, none, some, List, [], ◌∷◌, ◌++◌, map,
  arith, ltb, leb, ◌==◌, if◌then◌else◌, Bool-cases, is_empty, Text, codes, same_text, strip_prefix,
  same_text_iff, length, drop, u64_max, saturating_add, saturating_mul, saturating_sub,
}

abbrev pub max_log_lines : ℕ
max_log_lines = 1000

-- `cap_log`, and the same lines of `push_log` and `apply_update`
unfoldable pub cap_log : List Text → List Text
cap_log lines =
    if ltb max_log_lines (length lines) then drop (length lines - max_log_lines) lines else lines

module _ (Fields : Type 0) where
  pub record ProgressTelemetry : Type 0 where
    pub fields : Fields
    pub status_message : Text
    pub log_messages : List Text

  unfoldable pub push_log : Text → ProgressTelemetry → ProgressTelemetry
  push_log text t = record t {
    status_message = text;
    log_messages = cap_log (t.log_messages ++ text ∷ []);
  }

  -- `take_update`: the state that stays, and the update.
  unfoldable pub take_update : ProgressTelemetry → ProgressTelemetry × ProgressTelemetry
  take_update t = (record t { log_messages = [] }, t)

  unfoldable pub apply_update : ProgressTelemetry → ProgressTelemetry → ProgressTelemetry
  apply_update t update = record update {
    log_messages = cap_log (t.log_messages ++ update.log_messages);
  }

  -- `SinkInner` with the channel behind it: `connected` if it has a sender, the updates in the channel,
  -- oldest first, its capacity, and what the consumer has made of those that it received.
  pub record Wire : Type 0 where
    pub connected : Bool
    pub state : ProgressTelemetry
    pub warnings : List Text
    pub capacity : ℕ
    pub queue : List ProgressTelemetry
    pub consumer : ProgressTelemetry

  -- `try_send` and `send_timeout`, while the receiver is there.
  abbrev pub has_room : Wire → Bool
  has_room w = ltb (length w.queue) w.capacity

  -- What is left of an update that was not delivered, in front of newer lines.
  unfoldable pub put_back : ProgressTelemetry → Wire → Wire
  put_back update w = record w {
    state = record w.state { log_messages = cap_log (update.log_messages ++ w.state.log_messages) };
  }

  unfoldable pub forward : Wire → Wire
  forward w =
      if not w.connected
      then record w { state = record w.state { log_messages = cap_log w.state.log_messages } }
      else let (rest, update) = take_update w.state in
        if has_room w
        then record w { state = rest; queue = w.queue ++ update ∷ [] }
        else put_back update (record w { state = rest })

  -- The calls of the sink, and the consumer receiving an update.
  pub data Call : Type 0 where
    send : ProgressTelemetry → Call
    update : (Fields → Fields) → Call
    log : Text → Call
    warn : Text → Call
    phase : (Fields → Fields) → Text → Call
    -- the updates that the consumer receives while `finish` waits
    finish : (Fields → Fields) → Text → ℕ → Call
    disconnect : Call
    receive : Call

  unfoldable pub receive_one : Wire → Wire
  receive_one w = elim w.queue [
    | [] ↦ w
    | u ∷ us ↦ record w { queue = us; consumer = apply_update w.consumer u }
  ]

  unfoldable pub receive_many : ℕ → Wire → Wire
  receive_many zero w = w
  receive_many (suc n) w = receive_many n (receive_one w)

  abbrev pub edit : (Fields → Fields) → ProgressTelemetry → ProgressTelemetry
  edit f t = record t { fields = f t.fields }

  abbrev pub warning : Text → Text
  warning line = codes "WARNING: " ++ line

  unfoldable pub deliver : ProgressTelemetry → Wire → Wire
  deliver u w =
      if not w.connected
      then w
      else if has_room w
      then record w { queue = w.queue ++ u ∷ [] }
      else put_back u w

  unfoldable pub finish_sink : (Fields → Fields) → Text → ℕ → Wire → Wire
  finish_sink f message received w =
      let (rest, u) = take_update (push_log message (edit f w.state)) in
      deliver u (receive_many received (record w { state = rest }))

  unfoldable pub merge_update : ProgressTelemetry → Wire → Wire
  merge_update u w = record w {
    state = record u { log_messages = cap_log (w.state.log_messages ++ u.log_messages) };
  }

  unfoldable pub call : Call → Wire → Wire
  call (send u) w = forward (merge_update u w)
  call (update f) w = forward (record w { state = edit f w.state })
  call (log line) w = forward (record w { state = push_log line w.state })
  call (warn line) w = forward (record w {
    warnings = w.warnings ++ warning line ∷ [];
    state = push_log (warning line) w.state;
  })
  call (phase f message) w = forward (record w { state = push_log message (edit f w.state) })
  call (finish f message received) w = finish_sink f message received w
  call disconnect w = record w { connected = false }
  call receive w = receive_one w

  unfoldable pub calls : List Call → Wire → Wire
  calls [] w = w
  calls (c ∷ cs) w = calls cs (call c w)
