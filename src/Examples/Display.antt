-- ===== src/Examples/Display.antt =====
-- The display channel (internal/display/client.go, operation.go) at concrete inputs.
use sun_ray2server.Prelude.{
  inr, ℕ, ◌+◌, ◌≤◌, ◌<◌, ◌≡◌, refl, true, false, List, [], ◌∷◌, ◌++◌, none, some, length, flatten,
  All, get_elem?, arith, ◌*◌,
}
use sun_ray2server.Prelude.Bytes.{u16}
use sun_ray2server.Display.Operation.{
  Operation, Color, with_sequence, bounds, fill, copy, pad, resend_done,
}
use sun_ray2server.Display.Operation.Layout.{
  read_command, set_bounds, fill_rectangle, copy_rectangle, replay_done, top_byte,
  read_command-with_sequence,
}
use sun_ray2server.Display.Sequence.{valid_nack_range, extend_operation_sequence, extend-u16}
use sun_ray2server.Display.Client.{
  Env, Client, NackRange, History, new_client, send_batch, datagram, lookup, encode_batch,
  encode_operation, remember, send_operations, send_packet,
}
use sun_ray2server.Display.Client.Packing.{Delivery, payloads, datagrams}
use sun_ray2server.Display.Client.Encoding.{IsRecent, new_client-IsRecent, numbered_from, seq_after}
use sun_ray2server.Display.Client.Batch.{send_batch-Delivery, send_batch-IsRecent, send_batch-none}
use sun_ray2server.Display.Resend.{collect_replay, completion, resend, send_replay}
use sun_ray2server.Display.Resend.Replay.{collect_replay-run, resend_unavailable, send_replay_lem}
use sun_ray2server.Display.Resend.Storm.{KeepsOrDrops, resend_keeps}
use sun_ray2server.Display.Resend.Queue.{queue_all, waiting_after, queue_all_newest}
use sun_ray2server.Display.Resend.Bursts.{Outcome, record_all, record_all_lem}

abbrev all_ok : Env
all_ok = record { clock = λ i. i * 1000; write_ok = λ i. true }

abbrev start : Client
start = new_client 0 false

abbrev two_ops : List Operation
two_ops = copy 1 2 3 4 5 6 ∷ pad ∷ []

-- The second operation consumes no sequence: both carry sequence 1 and share a datagram.
two_sent :
    (send_batch all_ok start two_ops).1.sent
    ≡ datagram 1 ((with_sequence (copy 1 2 3 4 5 6) 1).bytes ++ (with_sequence pad 1).bytes) ∷ []
unfolding send_batch new_client copy pad with_sequence encode_batch encode_operation remember
    send_operations send_packet datagram
two_sent = refl

send_batch-Delivery_example :
    let r = send_batch all_ok start two_ops in
    (gs : List (List (List ℕ))) × (flatten gs ≡ numbered_from start.op_seq two_ops)
    × All (λ g. (0 < length (flatten g)) × (length (flatten g) ≤ 1432)) gs
    × Delivery start r (payloads gs)
    × (r.1.op_seq ≡ seq_after start.op_seq two_ops)
unfolding new_client copy pad
send_batch-Delivery_example = send_batch-Delivery all_ok start two_ops refl (omega arith)

send_batch-IsRecent_example : IsRecent (send_batch all_ok start two_ops).1
unfolding copy pad
send_batch-IsRecent_example =
    send_batch-IsRecent all_ok start two_ops (new_client-IsRecent 0 false) (omega arith)

send_batch-none_example : (send_batch all_ok start two_ops).0 ≡ none
unfolding new_client copy pad
send_batch-none_example = send_batch-none all_ok start two_ops refl (omega arith) (λ i. refl)

abbrev history : History
history = (7, 1 ∷ 2 ∷ []) ∷ (6, 3 ∷ []) ∷ []

collect_replay-run_example :
    let run = collect_replay history 6 4 in
    ((i : ℕ) → i < length run → lookup (6 + i) history ≡ get_elem? run i)
    × (length run ≤ 4)
    × ((length run < 4) → lookup (6 + length run) history ≡ none)
collect_replay-run_example = collect_replay-run history 6 4

-- Operations 6 and 7 are replayed, and 8 is not at hand.
run_of_two : collect_replay history 6 4 ≡ (3 ∷ []) ∷ (1 ∷ 2 ∷ []) ∷ []
unfolding collect_replay lookup
run_of_two = refl

abbrev nack : NackRange
nack = record { marker = 0; from = 40; to = 50 }

resend_unavailable_example :
    let r = resend all_ok start nack in
    (r.0 ≡ false)
    × (r.1.sent ≡ start.sent)
    × (r.1.packet_seq ≡ start.packet_seq)
    × (r.1.op_seq ≡ start.op_seq)
    × (r.1.history ≡ start.history)
    × (r.1.nack_cooldown_until ≡ start.nack_cooldown_until)
unfolding new_client lookup extend_operation_sequence
resend_unavailable_example = resend_unavailable all_ok start nack refl

send_replay_lem_example :
    let r = send_replay all_ok start 9 ((5 ∷ []) ∷ []) in
    (gs : List (List (List ℕ))) × (seq : ℕ) × (flatten gs ≡ (5 ∷ []) ∷ [])
    × (r.0 ≡ false)
    × (r.1.sent
        ≡ (start.sent ++ datagrams start.packet_seq (payloads gs))
          ++ (datagram seq (completion start.op_seq 9) ∷ []))
send_replay_lem_example = send_replay_lem all_ok start 9 (5 ∷ []) [] (λ i. refl) (omega arith)

resend_keeps_example : KeepsOrDrops start (resend all_ok start nack)
resend_keeps_example = resend_keeps all_ok start nack

-- Two requests of 300 operations within a microsecond.
record_all_lem_example : Outcome 5 2 600 start (record_all start ((5, 300) ∷ (9, 300) ∷ []))
unfolding new_client
record_all_lem_example =
    record_all_lem start 5 300 ((9, 300) ∷ []) refl ((omega arith, omega arith), tt)

-- One NACK before the one that stays, and an invalid one behind it.
abbrev older_nack : NackRange
older_nack = record { marker = 0; from = 30; to = 35 }

abbrev invalid_nack : NackRange
invalid_nack = record { marker = 0; from = 70000; to = 8 }

queue_all_newest_example :
    queue_all all_ok start (older_nack ∷ nack ∷ invalid_nack ∷ [])
    ≡ waiting_after start 3 (some nack)
unfolding new_client valid_nack_range
queue_all_newest_example =
    queue_all_newest all_ok start (older_nack ∷ []) nack (invalid_nack ∷ []) (omega arith, refl)
      (inr refl, tt)

extend-u16_example : extend_operation_sequence (u16 70000) 65540 ≡ 70000
extend-u16_example = extend-u16 70000 65540 (omega arith) (omega arith) (omega arith) (omega arith)

abbrev orange : Color
orange = record { red = 0xFFFF; green = 0xC8C8; blue = 0 }

read_command-with_sequence_example :
    (read_command (with_sequence (bounds 1400 1050) 9).bytes ≡ set_bounds (u16 1400) (u16 1050))
    × (read_command (with_sequence (fill 1 2 1400 1050 orange) 9).bytes
        ≡ fill_rectangle
            (u16 1)
            (u16 2)
            (u16 1400)
            (u16 1050)
            (top_byte orange.blue ∷ top_byte orange.green ∷ top_byte orange.red ∷ []))
    × (read_command (with_sequence (copy 1 2 1400 1050 7 8) 9).bytes
        ≡ copy_rectangle (u16 1) (u16 2) (u16 1400) (u16 1050) (u16 7) (u16 8))
    × (read_command (with_sequence (resend_done 7) 9).bytes ≡ replay_done (u16 7))
read_command-with_sequence_example = read_command-with_sequence 9 1 2 1400 1050 7 8 orange
