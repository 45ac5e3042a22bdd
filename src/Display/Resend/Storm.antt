-- ===== src/Display/Resend/Storm.antt =====
-- The resend storm breaker, and what every resend keeps.
use sun_ray2server.Prelude.{
  ℕ, ◌+◌, ◌-◌, ◌≤◌, ◌<◌, ◌≡◌, ◌⊎◌, refl, min, Option, Bool, true, false, List, [], ◌∷◌, none, some,
  length, if◌then◌else◌, arith, drop,
}
use sun_ray2server.Prelude.Bytes.{u16, u32}
use sun_ray2server.Display.Operation.{pad, resend_done, with_sequence}
use sun_ray2server.Display.Operation.Layout.{read_command, replay_done}
use sun_ray2server.Display.Sequence.{extend_operation_sequence}
use sun_ray2server.Display.Client.{Env, Client, NackRange, now, tick, send_operations}
use sun_ray2server.Display.Client.Frame.{send_packet_keeps, send_operations_keeps}
use sun_ray2server.Display.Resend.{
  extended_to, collect_replay, record_resend, resend_storm_limit, resend_storm_ops, completion,
  expired, resend_storm_window, resend, replay_range, send_replay, log_missing_nack, log_resend,
  replace_with_snapshot, send_resend_completion,
}

-- The accounting of the breaker stays below its limits between requests.
abbrev pub IsCalm : Client → Type 0
IsCalm c = (c.resend_window_count < resend_storm_limit) × (c.resend_window_ops < resend_storm_ops)

-- The requests and operations of the storm window at time `t`, with one more request counted.
abbrev pub window_count : Client → ℕ → ℕ
window_count c t =
    (if expired c.resend_window_start t resend_storm_window then 0 else c.resend_window_count) + 1

abbrev pub window_ops : Client → ℕ → ℕ → ℕ
window_ops c t operations =
    (if expired c.resend_window_start t resend_storm_window then 0 else c.resend_window_ops)
    + operations

-- The start of the window that a request at time `t` falls in.
abbrev pub window_start : Client → ℕ → Option ℕ
window_start c t =
    if expired c.resend_window_start t resend_storm_window then some t else c.resend_window_start

-- Recording a replay counts its request and its operations in the window, which goes on, or begins now
-- if there is none or the last began more than two seconds ago. Below 64 requests and 4096 operations
-- history and cooldown stay; otherwise the breaker fires: the history is emptied, both counts are 0,
-- there is no window, and NACKs are ignored for two seconds. The counts are below the limits afterwards.
pub record_resend_lem :
    (c : Client) (t operations : ℕ)
    → let r = record_resend c t operations in
      IsCalm r.1
      × (((r.0 ≡ false)
            × (r.1.resend_window_count ≡ window_count c t)
            × (r.1.resend_window_ops ≡ window_ops c t operations)
            × (r.1.resend_window_start ≡ window_start c t)
            × (r.1.history ≡ c.history)
            × (r.1.nack_cooldown_until ≡ c.nack_cooldown_until))
          ⊎ ((r.0 ≡ true)
              × ((64 ≤ window_count c t) ⊎ (4096 ≤ window_ops c t operations))
              × (r.1.history ≡ [])
              × (r.1.resend_window_start ≡ none)
              × (r.1.resend_window_count ≡ 0)
              × (r.1.resend_window_ops ≡ 0)
              × (r.1.nack_cooldown_until ≡ t + 2000000000)))
unfolding record_resend
record_resend_lem c t operations = ground arith

-- The status behind the pad of a completion acknowledges the requested end, in 16 bits.
pub completion_acknowledges :
    (op_seq requested_to : ℕ)
    → (length (completion op_seq requested_to) ≡ 44)
      × (read_command (drop 24 (completion op_seq requested_to)) ≡ replay_done (u16 requested_to))
unfolding completion pad resend_done with_sequence
completion_acknowledges op_seq requested_to = (refl, ground arith)

send_replay_keeps :
    (env : Env) (c : Client) (requested_to : ℕ) (replay : List (List ℕ))
    → let r = send_replay env c requested_to replay in
      (r.0 ≡ false) × (r.1.op_seq ≡ c.op_seq) × (r.1.history ≡ c.history)
unfolding send_replay log_missing_nack log_resend send_resend_completion
send_replay_keeps env c requested_to [] = ground arith
send_replay_keeps env c requested_to (encoded ∷ replay) =
    let ops = encoded ∷ replay in
    let c1 = (send_operations env c [] ops).1 in
    ground (
      arith,
      send_operations_keeps env c [] ops,
      send_packet_keeps env c1 (completion c1.op_seq requested_to),
    )

record_resend_op_seq :
    (c : Client) (t operations : ℕ) → (record_resend c t operations).1.op_seq ≡ c.op_seq
unfolding record_resend
record_resend_op_seq c t operations = ground arith

-- The history is kept, or emptied by the breaker or the snapshot.
abbrev pub KeepsOrDrops : Client → Bool × Client → Type 0
KeepsOrDrops c r =
    (r.1.op_seq ≡ c.op_seq)
    × (((r.0 ≡ false) × (r.1.history ≡ c.history)) ⊎ ((r.0 ≡ true) × (r.1.history ≡ [])))

recorded_keeps :
    (env : Env) (c : Client) (t charge to : ℕ) (replay : List (List ℕ))
    → let r = record_resend (tick env c) t charge in
      KeepsOrDrops c (if r.0 then r else send_replay env r.1 to replay)
recorded_keeps env c t charge to replay =
    let r = record_resend (tick env c) t charge in
    ground (
      arith,
      record_resend_lem (tick env c) t charge,
      record_resend_op_seq (tick env c) t charge,
      send_replay_keeps env r.1 to replay,
    )

replay_range_keeps :
    (env : Env) (c : Client) (from to requested_to : ℕ)
    → KeepsOrDrops c (replay_range env c from to requested_to)
unfolding replay_range
replay_range_keeps env c from to requested_to =
    let last = min to c.op_seq in
    let charge = min (u32 (last - from + 1)) 256 in
    let r = record_resend (tick env c) (now env c) charge in
    ground (
      arith,
      send_replay_keeps env c requested_to [],
      send_replay_keeps env c requested_to (collect_replay c.history from (last - from + 1)),
      recorded_keeps env c (now env c) charge requested_to
          (collect_replay r.1.history from (last - from + 1)),
    )

snapshot_keeps : (env : Env) (c : Client) (to : ℕ) → KeepsOrDrops c (replace_with_snapshot env c to)
unfolding replace_with_snapshot send_resend_completion
snapshot_keeps env c to = ground (arith, send_packet_keeps env c (completion c.op_seq to))

-- Every resend keeps the operation counter: completions consume no drawing sequence. If the breaker
-- or the snapshot did not fire it keeps the history, and if one did the history is empty.
pub resend_keeps : (env : Env) (c : Client) (req : NackRange) → KeepsOrDrops c (resend env c req)
unfolding resend
resend_keeps env c req =
    let from = extend_operation_sequence req.from c.op_seq in
    let to = extended_to c.op_seq req.from req.to in
    ground (arith, snapshot_keeps env c req.to, replay_range_keeps env c from to req.to)
