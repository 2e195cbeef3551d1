-- ===== src/Progress/Delivered.antt =====
-- src/engines/progress.rs: no log line is lost or repeated on its way to the consumer.
use dfdisk.Prelude.{
  ℕ, zero, suc, ◌≡◌, refl, sym, ap, ◌∙◌, inl, inr, Bool, true, false, ◌&&◌, List, [], ◌∷◌, ◌++◌,
  arith, Bool-cases, Text,
}
use mathlib.Core.List.{append-nil, append_assoc}
use dfdisk.Progress.{
  cap_log, ProgressTelemetry, push_log, take_update, apply_update, Wire, has_room, put_back,
  forward, Call, send, update, log, warn, phase, finish, disconnect, receive, receive_one,
  receive_many, edit, warning, deliver, finish_sink, merge_update, call, calls,
}
use dfdisk.Progress.Lasting.{cap_log-append_front, cap_log-append_back}

module _ (Fields : Type 0) where
  abbrev W : Type 0
  W = Wire Fields

  -- The log lines of the updates in the channel.
  pub queued : List (ProgressTelemetry Fields) → List Text
  queued [] = []
  queued (u ∷ us) = u.log_messages ++ queued us

  -- The lines that have reached the consumer, are in the channel, or are still held by the sink.
  pub all_lines : W → List Text
  all_lines w = w.consumer.log_messages ++ (queued w.queue ++ w.state.log_messages)

  -- The lines that a call logs.
  pub logged : Call Fields → List Text
  logged (send u) = u.log_messages
  logged (update f) = []
  logged (log line) = line ∷ []
  logged (warn line) = warning Fields line ∷ []
  logged (phase f message) = message ∷ []
  logged (finish f message received) = message ∷ []
  logged disconnect = []
  logged receive = []

  pub all_logged : List (Call Fields) → List Text
  all_logged [] = []
  all_logged (c ∷ cs) = logged c ++ all_logged cs

  -- The two have the same last lines.
  Same : List Text → List Text → Type 0
  Same xs ys = cap_log xs ≡ cap_log ys

  queued-append :
      (us : List (ProgressTelemetry Fields)) (u : ProgressTelemetry Fields)
      → queued (us ++ u ∷ []) ≡ queued us ++ u.log_messages
  unfolding queued
  queued-append [] u = append-nil u.log_messages
  queued-append (v ∷ us) u =
      ap (λ l. v.log_messages ++ l) (queued-append us u)
      ∙ sym (append_assoc v.log_messages (queued us) u.log_messages)

  held-Same : (c q s : List Text) → Same (c ++ (q ++ cap_log s)) (c ++ (q ++ s))
  unfolding Same
  held-Same c q s =
      ap cap_log (sym (append_assoc c q (cap_log s)))
      ∙ (cap_log-append_back (c ++ q) s ∙ ap cap_log (append_assoc c q s))

  -- The last lines of \`w2\` are those of \`w1\` with the lines added.
  Adds : List Text → W → W → Type 0
  Adds ls w1 w2 = Same (all_lines w2) (all_lines w1 ++ ls)

  Adds-nothing : (w1 w2 : W) → Same (all_lines w2) (all_lines w1) → Adds [] w1 w2
  unfolding Adds Same
  Adds-nothing w1 w2 h = h ∙ ap cap_log (sym (append-nil (all_lines w1)))

  Adds-more :
      (ls ms : List Text) (w1 w2 w3 : W) → Adds ls w1 w2 → Adds ms w2 w3 → Adds (ls ++ ms) w1 w3
  unfolding Adds Same
  Adds-more ls ms w1 w2 w3 first second =
      second
      ∙ (sym (cap_log-append_front (all_lines w2) ms)
          ∙ (ap (λ l. cap_log (l ++ ms)) first
              ∙ (cap_log-append_front (all_lines w1 ++ ls) ms
                  ∙ ap cap_log (append_assoc (all_lines w1) ls ms))))

  -- What is held is handed over to the channel, or kept.
  sent : (c q s : List Text) → c ++ ((q ++ s) ++ []) ≡ c ++ (q ++ s)
  sent c q s = ap (λ l. c ++ l) (append-nil (q ++ s))

  forward-Same : (w : W) → Same (all_lines (forward Fields w)) (all_lines w)
  unfolding forward Same all_lines take_update put_back
  forward-Same w =
      let c = w.consumer.log_messages in
      let q = queued w.queue in
      let s = w.state.log_messages in
      elim (Bool-cases w.connected) [
        | inl on ↦ elim (Bool-cases (has_room Fields w)) [
          | inl room ↦
              rw (on, room)
                (ap (λ l. cap_log (c ++ (l ++ []))) (queued-append w.queue w.state)
                  ∙ ap cap_log (sent c q s))
          | inr full ↦
              rw (on, full)
                (held-Same c q (s ++ []) ∙ ap (λ l. cap_log (c ++ (q ++ l))) (append-nil s))
        ]
        | inr off ↦ rw (off) (held-Same c q s)
      ]

  -- A line, or some, added behind what is held, and then forwarded.
  held-Adds :
      (w1 w2 : W) (ls : List Text)
      → w2.consumer.log_messages ≡ w1.consumer.log_messages
      → queued w2.queue ≡ queued w1.queue
      → w2.state.log_messages ≡ cap_log (w1.state.log_messages ++ ls)
      → Adds ls w1 w2
  unfolding Adds Same all_lines
  held-Adds w1 w2 ls consumed waiting held =
      let c = w1.consumer.log_messages in
      let q = queued w1.queue in
      let s = w1.state.log_messages in
      rw (consumed, waiting, held)
        (held-Same c q (s ++ ls)
          ∙ ap cap_log
              (ap (λ l. c ++ l) (sym (append_assoc q s ls)) ∙ sym (append_assoc c (q ++ s) ls)))

  forwarded-Adds : (w1 w2 : W) (ls : List Text) → Adds ls w1 w2 → Adds ls w1 (forward Fields w2)
  unfolding Adds Same
  forwarded-Adds w1 w2 ls h = forward-Same w2 ∙ h

  receive_one-Same : (w : W) → Same (all_lines (receive_one Fields w)) (all_lines w)
  unfolding receive_one Same all_lines apply_update queued
  receive_one-Same w = received w.queue
    where
      received :
          (us : List (ProgressTelemetry Fields))
          → Same
              (all_lines (receive_one Fields (record w { queue = us })))
              (all_lines (record w { queue = us }))
      received [] = refl
      received (u ∷ us) =
          let c = w.consumer.log_messages in
          let l = u.log_messages in
          let rest = queued us ++ w.state.log_messages in
          cap_log-append_front (c ++ l) rest
          ∙ ap cap_log (
              append_assoc c l rest
              ∙ ap (λ k. c ++ k) (sym (append_assoc l (queued us) w.state.log_messages)))

  receive_one-keeps :
      (w : W)
      → ((receive_one Fields w).connected ≡ w.connected) × ((receive_one Fields w).state ≡ w.state)
  unfolding receive_one
  receive_one-keeps w = received w.queue
    where
      received :
          (us : List (ProgressTelemetry Fields))
          → ((receive_one Fields (record w { queue = us })).connected ≡ w.connected)
            × ((receive_one Fields (record w { queue = us })).state ≡ w.state)
      received [] = (refl, refl)
      received (u ∷ us) = (refl, refl)

  receive_many-Same :
      (n : ℕ) (w : W)
      → (cap_log (all_lines (receive_many Fields n w)) ≡ cap_log (all_lines w))
        × ((receive_many Fields n w).connected ≡ w.connected)
        × ((receive_many Fields n w).state ≡ w.state)
  unfolding receive_many Same
  receive_many-Same zero w = (refl, refl, refl)
  receive_many-Same (suc n) w =
      let (same, on, state) = receive_many-Same n (receive_one Fields w) in
      let (on1, state1) = receive_one-keeps w in
      (same ∙ receive_one-Same w, on ∙ on1, state ∙ state1)

  deliver-Same :
      (u : ProgressTelemetry Fields) (w : W)
      → w.connected ≡ true
      → w.state.log_messages ≡ []
      → Same (all_lines (deliver Fields u w)) (all_lines w ++ u.log_messages)
  unfolding deliver put_back Same all_lines
  deliver-Same u w on none_held =
      let c = w.consumer.log_messages in
      let q = queued w.queue in
      let l = u.log_messages in
      let goal : c ++ (q ++ l) ≡ (c ++ (q ++ [])) ++ l =
        sym (append_assoc c q l) ∙ ap (λ k. (c ++ k) ++ l) (sym (append-nil q)) in
      elim (Bool-cases (has_room Fields w)) [
        | inl room ↦
            rw (on, room, none_held)
              (ap (λ k. cap_log (c ++ (k ++ []))) (queued-append w.queue u)
                ∙ ap cap_log (sent c q l ∙ goal))
        | inr full ↦
            rw (on, full, none_held)
              (held-Same c q (l ++ []) ∙ ap cap_log (ap (λ k. c ++ (q ++ k)) (append-nil l) ∙ goal))
      ]

  moved : (c q s ls : List Text) → (c ++ (q ++ [])) ++ (s ++ ls) ≡ (c ++ (q ++ s)) ++ ls
  moved c q s ls =
      ap (λ k. (c ++ k) ++ (s ++ ls)) (append-nil q)
      ∙ (sym (append_assoc (c ++ q) s ls) ∙ ap (λ k. k ++ ls) (append_assoc c q s))

  finish_sink-Adds :
      (f : Fields → Fields) (message : Text) (n : ℕ) (w : W)
      → w.connected ≡ true
      → Adds (message ∷ []) w (finish_sink Fields f message n w)
  unfolding finish_sink Adds Same take_update push_log all_lines
  finish_sink-Adds f message n w on =
      let c = w.consumer.log_messages in
      let q = queued w.queue in
      let s = w.state.log_messages in
      let l = s ++ message ∷ [] in
      let pushed = push_log Fields message (edit Fields f w.state) in
      let w0 : W = record w { state = record pushed { log_messages = [] } } in
      let w1 = receive_many Fields n w0 in
      let (same, still_on, state) = receive_many-Same n w0 in
      let none_held : w1.state.log_messages ≡ [] =
        ap (λ (t : ProgressTelemetry Fields). t.log_messages) state in
      deliver-Same pushed w1 (still_on ∙ on) none_held
      ∙ (sym (cap_log-append_front (all_lines w1) (cap_log l))
          ∙ (ap (λ k. cap_log (k ++ cap_log l)) same
              ∙ (cap_log-append_front (all_lines w0) (cap_log l)
                  ∙ (cap_log-append_back (all_lines w0) l
                      ∙ ap cap_log (moved c q s (message ∷ []))))))

  -- Whether a call keeps every line that it finds: `finish` takes the held lines out of the sink, and
  -- without a sender they go nowhere.
  unfoldable pub keeps_lines : Bool → Call Fields → Bool
  keeps_lines connected (finish f message received) = connected
  keeps_lines connected _ = true

  unfoldable pub still_connected : Bool → Call Fields → Bool
  still_connected connected disconnect = false
  still_connected connected _ = connected

  unfoldable pub all_keep_lines : Bool → List (Call Fields) → Bool
  all_keep_lines connected [] = true
  all_keep_lines connected (c ∷ cs) =
      keeps_lines connected c && all_keep_lines (still_connected connected c) cs

  edited-Same :
      (f : Fields → Fields) (w : W)
      → Same (all_lines (record w { state = edit Fields f w.state })) (all_lines w)
  unfolding Same all_lines
  edited-Same f w = refl

  disconnected-Same : (w : W) → Same (all_lines (record w { connected = false })) (all_lines w)
  unfolding Same all_lines
  disconnected-Same w = refl

  call-Adds :
      (c : Call Fields) (w : W)
      → keeps_lines w.connected c ≡ true
      → Adds (logged c) w (call Fields c w)
  unfolding call logged keeps_lines push_log merge_update
  call-Adds (send u) w k =
      forwarded-Adds w _ u.log_messages (held-Adds w _ u.log_messages refl refl refl)
  call-Adds (update f) w k = forwarded-Adds w _ [] (Adds-nothing w _ (edited-Same f w))
  call-Adds (log line) w k =
      forwarded-Adds w _ (line ∷ []) (held-Adds w _ (line ∷ []) refl refl refl)
  call-Adds (warn line) w k =
      let l = warning Fields line ∷ [] in forwarded-Adds w _ l (held-Adds w _ l refl refl refl)
  call-Adds (phase f message) w k =
      forwarded-Adds w _ (message ∷ []) (held-Adds w _ (message ∷ []) refl refl refl)
  call-Adds (finish f message received) w k = finish_sink-Adds f message received w k
  call-Adds disconnect w k = Adds-nothing w _ (disconnected-Same w)
  call-Adds receive w k = Adds-nothing w _ (receive_one-Same w)

  forward-connected : (w : W) → (forward Fields w).connected ≡ w.connected
  unfolding forward take_update put_back
  forward-connected w = elim (Bool-cases w.connected) [
    | inl on ↦ elim (Bool-cases (has_room Fields w)) [
      | inl room ↦ rw (on, room) (refl)
      | inr full ↦ rw (on, full) (refl)
    ]
    | inr off ↦ rw (off) (refl)
  ]

  deliver-connected :
      (u : ProgressTelemetry Fields) (w : W) → (deliver Fields u w).connected ≡ w.connected
  unfolding deliver put_back
  deliver-connected u w = elim (Bool-cases w.connected) [
    | inl on ↦ elim (Bool-cases (has_room Fields w)) [
      | inl room ↦ rw (on, room) (refl)
      | inr full ↦ rw (on, full) (refl)
    ]
    | inr off ↦ rw (off) (refl)
  ]

  call-connected :
      (c : Call Fields) (w : W) → (call Fields c w).connected ≡ still_connected w.connected c
  unfolding call still_connected finish_sink merge_update push_log take_update
  call-connected (send u) w = forward-connected _
  call-connected (update f) w = forward-connected _
  call-connected (log line) w = forward-connected _
  call-connected (warn line) w = forward-connected _
  call-connected (phase f message) w = forward-connected _
  call-connected (finish f message received) w =
      deliver-connected _ _ ∙ (receive_many-Same received _).1
  call-connected disconnect w = refl
  call-connected receive w = (receive_one-keeps w).0

  -- However the calls of the sink and of the consumer follow each other, and however full the channel
  -- is, what the consumer has, the channel holds and the sink still holds are together, in this order,
  -- the lines logged: their last 1000 are the same. None is lost or repeated, and none overtakes
  -- another. The receiver stays, and `finish` is not called without a sender.
  pub calls-lines :
      (cs : List (Call Fields)) (w : W)
      → all_keep_lines w.connected cs ≡ true
      → cap_log (all_lines (calls Fields cs w)) ≡ cap_log (all_lines w ++ all_logged cs)
  unfolding calls all_logged all_keep_lines Adds Same
  calls-lines [] w k = ap cap_log (sym (append-nil (all_lines w)))
  calls-lines (c ∷ cs) w k =
      let w2 = call Fields c w in
      let rest : all_keep_lines w2.connected cs ≡ true =
        rw (call-connected c w) (ground (arith, k)) in
      let first = call-Adds c w (ground (arith, k)) in
      Adds-more (logged c) (all_logged cs) w w2 (calls Fields cs w2) first (calls-lines cs w2 rest)
