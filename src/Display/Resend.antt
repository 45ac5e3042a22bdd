-- ===== src/Display/Resend.antt =====
-- internal/display/client.go: NACKs, the replay of the history, and the resend storm breaker.
pub mod Replay
pub mod Storm
pub mod Queue
pub mod Bursts
use sun_ray2server.Prelude.{
  ℕ, zero, suc, ◌+◌, ◌-◌, min, Bool, true, false, ◌&&◌, not, List, [], ◌∷◌, ◌++◌, Option, none,
  some, length, ltb, leb, ◌==◌, if◌then◌else◌,
}
use sun_ray2server.Prelude.Bytes.{u16, u32}
use sun_ray2server.Display.Operation.{with_sequence, pad, resend_done}
use sun_ray2server.Display.Sequence.{
  valid_nack_range, extend_operation_sequence, should_replace_resend_with_snapshot, nack_open_ended,
  operation_seq_mod,
}
use sun_ray2server.Display.Client.{
  Env, Client, NackRange, SendError, History, lookup, now, tick, send_packet, send_operations,
}

abbrev pub max_resend_charge : ℕ
max_resend_charge = 256

abbrev pub resend_storm_limit : ℕ
resend_storm_limit = 64

abbrev pub resend_storm_ops : ℕ
resend_storm_ops = 4096

-- 2 * time.Second, in nanoseconds.
abbrev pub resend_storm_window : ℕ
resend_storm_window = 2000000000

abbrev pub resend_storm_cooldown : ℕ
resend_storm_cooldown = 2000000000

-- `x.IsZero() || now.Sub(x) > d`
abbrev pub expired : Option ℕ → ℕ → ℕ → Bool
expired none t d = true
expired (some start) t d = ltb (start + d) t

-- `!x.IsZero() && now.Sub(x) < d`
abbrev pub within : Option ℕ → ℕ → ℕ → Bool
within none t d = false
within (some start) t d = ltb t (start + d)

-- What firing the breaker and the snapshot have in common.
abbrev pub cool_down : Client → ℕ → Client
cool_down c t = record c {
  history = [];
  resend_window_start = none;
  resend_window_count = 0;
  resend_window_ops = 0;
  nack_cooldown_until = t + resend_storm_cooldown;
}

-- `recordResendLocked`: whether the breaker fired.
unfoldable pub record_resend : Client → ℕ → ℕ → Bool × Client
record_resend c t operations =
    let c1 =
      if expired c.resend_window_start t resend_storm_window
      then record c { resend_window_start = some t; resend_window_count = 0; resend_window_ops = 0 }
      else c in
    let c2 = record c1 {
      resend_window_count = c1.resend_window_count + 1;
      resend_window_ops = c1.resend_window_ops + operations;
    } in
    if ltb c2.resend_window_count resend_storm_limit && ltb c2.resend_window_ops resend_storm_ops
    then (false, c2)
    else (true, cool_down c2 t)

-- `for seq := from; seq <= to; seq++`, with the rounds left: the replayed bytes, up to the first
-- sequence that the history lacks. (`to - from + 1` rounds: at the largest uint32 Go's loop would go
-- on from 0, but a history of at most 8192 operations has ended it before.)
unfoldable pub collect_replay : History → ℕ → ℕ → List (List ℕ)
collect_replay h seq zero = []
collect_replay h seq (suc n) =
    let rest = collect_replay h (seq + 1) n in
    elim (lookup seq h) [ none ↦ [] | some encoded ↦ encoded ∷ rest ]

-- The pad and the 0xAC status of a completion, with the counter's sequence.
unfoldable pub completion : ℕ → ℕ → List ℕ
completion op_seq requested_to =
    (with_sequence pad (u16 op_seq)).bytes
    ++ (with_sequence (resend_done (u16 requested_to)) (u16 op_seq)).bytes

abbrev pub has : ℕ → History → Bool
has k h = elim (lookup k h) [ none ↦ false | some v ↦ true ]

-- The extended end of a request.
unfoldable pub extended_to : ℕ → ℕ → ℕ → ℕ
extended_to current requested_from requested_to =
    if requested_to == nack_open_ended
    then current
    else let from = extend_operation_sequence requested_from current in
      let to = extend_operation_sequence requested_to current in
      if ltb to from && ltb requested_from operation_seq_mod && ltb requested_to operation_seq_mod
      then u32 (to + operation_seq_mod)
      else to

module _ (env : Env) where
  -- `logMissingNACKLocked`, by its effect on the state.
  unfoldable pub log_missing_nack : Client → Client
  log_missing_nack c0 =
      let c1 = record c0 { missing_nacks = c0.missing_nacks + 1 } in
      let t = now env c1 in
      let c = tick env c1 in
      if within c.last_missing_nack_log t 5000000000
      then c
      else record c { last_missing_nack_log = some t; missing_nacks = 0 }

  unfoldable pub log_resend : Client → ℕ → Client
  log_resend c0 resent =
      let c1 = record c0 {
        resend_log_requests = c0.resend_log_requests + 1;
        resend_log_ops = c0.resend_log_ops + resent;
      } in
      let t = now env c1 in
      let c = tick env c1 in
      if within c.last_resend_log t 1000000000
      then c
      else record c { last_resend_log = some t; resend_log_requests = 0; resend_log_ops = 0 }

  unfoldable pub send_resend_completion : Client → ℕ → Option SendError × Client
  send_resend_completion c requested_to = send_packet env c (completion c.op_seq requested_to)

  -- The snapshot branch: acknowledge, then drop the history and cool down.
  unfoldable pub replace_with_snapshot : Client → ℕ → Bool × Client
  replace_with_snapshot c requested_to =
      let r = send_resend_completion c requested_to in
      elim r.0 [ some e ↦ (false, r.1) | none ↦ (true, cool_down (tick env r.1) (now env r.1)) ]

  -- The replay has been collected: send it, then the completion.
  unfoldable pub send_replay : Client → ℕ → List (List ℕ) → Bool × Client
  unfolding log_missing_nack log_resend
  send_replay c requested_to [] = (false, log_missing_nack c)
  send_replay c requested_to (encoded ∷ replay) =
      let r = send_operations env c [] (encoded ∷ replay) in
      elim r.0 [
        | some e ↦ (false, r.1)
        | none ↦
            let s = send_resend_completion r.1 requested_to in
            elim s.0 [
              | some e ↦ (false, s.1)
              | none ↦ (false, log_resend s.1 (suc (length replay)))
            ]
      ]

  -- The direct replay of `from..to`: the breaker is charged if the first operation is at hand.
  unfoldable pub replay_range : Client → ℕ → ℕ → ℕ → Bool × Client
  replay_range c from to requested_to =
      if not (leb from to && leb from c.op_seq)
      then send_replay c requested_to []
      else let last = min to c.op_seq in
        let charge = min (u32 (last - from + 1)) max_resend_charge in
        elim (lookup from c.history) [
          | none ↦ send_replay c requested_to (collect_replay c.history from (last - from + 1))
          | some bytes ↦
              let r = record_resend (tick env c) (now env c) charge in
              if r.0
              then r
              else send_replay r.1 requested_to (collect_replay r.1.history from (last - from + 1))
        ]

  -- `resend`: whether the storm breaker fired.
  unfoldable pub resend : Client → NackRange → Bool × Client
  resend c req =
      if c.closed
      then (false, c)
      else let from = extend_operation_sequence req.from c.op_seq in
        let to = extended_to c.op_seq req.from req.to in
        if has from c.history && should_replace_resend_with_snapshot from to c.op_seq
        then replace_with_snapshot c req.to
        else replay_range c from to req.to

  -- `queueResend`: the channel holds one request, and a newer one takes its place.
  unfoldable pub queue_resend : Client → NackRange → Client
  queue_resend c0 req =
      let t = now env c0 in
      let c = tick env c0 in
      if ltb t c.nack_cooldown_until
      then c
      else if not (valid_nack_range req.from req.to)
      then c
      else elim c.nack_requests [
        | none ↦ record c { nack_requests = some req }
        | some old ↦
            let drained = record c { nack_requests = none } in
            record drained { nack_requests = some req }
      ]

  -- One round of `resendLoop` on a waiting request; with none it waits.
  unfoldable pub resend_round : Client → Client
  resend_round c = elim c.nack_requests [
    | none ↦ c
    | some req ↦
        let r = resend (record c { nack_requests = none }) req in
        let drained = record (r.1) { nack_requests = none } in
        if not r.0
        then r.1
        else if drained.on_resync
        then record drained { resyncs = drained.resyncs + 1 }
        else drained
  ]
