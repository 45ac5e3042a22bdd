-- ===== src/Display/Client.antt =====
-- internal/display/client.go: the state of the UDP display channel of one terminal, and its sending
-- side. Methods that hold the client's mutex are functions from the state to the new state; an
-- error is an option.
--
-- Two things come from outside and are the argument `env`: the i-th reading of the clock (in
-- nanoseconds) and whether the i-th WriteToUDP succeeds. The state counts both, and keeps the
-- datagrams that were written, in order.
pub mod Packing
pub mod Window
pub mod Frame
pub mod Encoding
pub mod Batch
use sun_ray2server.Prelude.{
  ℕ, ◌+◌, ◌-◌, ◌%◌, Bool, true, false, ◌&&◌, List, [], ◌∷◌, ◌++◌, Option, none, some, length,
  replicate, ltb, ◌==◌, if◌then◌else◌,
}
use sun_ray2server.Prelude.Bytes.{u16, u32, put_u16}
use sun_ray2server.Display.Operation.{Operation, with_sequence, pad}
use sun_ray2server.Display.Input.{InputDecoder, InputEvent, new_decoder}

abbrev pub packet_header_size : ℕ
packet_header_size = 16

abbrev pub max_datagram_size : ℕ
max_datagram_size = 1448

abbrev pub max_history_size : ℕ
max_history_size = 8192

abbrev pub packet_burst_size : ℕ
packet_burst_size = 8

pub record Env : Type 0 where
  pub clock : ℕ → ℕ
  pub write_ok : ℕ → Bool

pub record NackRange : Type 0 where
  pub marker : ℕ
  pub from : ℕ
  pub to : ℕ

pub data SendError : Type 0 where
  closed_error too_large write_failed : SendError

-- The map from operation sequences to the bytes sent, newest first.
abbrev pub History : Type 0
History = List (ℕ × List ℕ)

unfoldable pub delete : ℕ → History → History
delete k [] = []
delete k ((j, v) ∷ m) = let rest = delete k m in if j == k then rest else (j, v) ∷ rest

unfoldable pub insert : ℕ → List ℕ → History → History
insert k v m = (k, v) ∷ delete k m

unfoldable pub lookup : ℕ → History → Option (List ℕ)
lookup k [] = none
lookup k ((j, v) ∷ m) = if j == k then some v else lookup k m

-- `none` for a time is Go's zero time. `delay` is in nanoseconds; the configuration refuses a
-- negative one. `nack_requests` is the channel of capacity 1.
pub record Client : Type 0 where
  pub delay : ℕ
  pub log_input_events : Bool
  pub packet_seq : ℕ
  pub op_seq : ℕ
  pub history : History
  pub burst_packets : ℕ
  pub burst_started : ℕ
  pub last_missing_nack_log : Option ℕ
  pub missing_nacks : ℕ
  pub last_resend_log : Option ℕ
  pub resend_log_requests : ℕ
  pub resend_log_ops : ℕ
  pub resend_window_start : Option ℕ
  pub resend_window_count : ℕ
  pub resend_window_ops : ℕ
  pub nack_cooldown_until : ℕ
  pub nack_requests : Option NackRange
  pub closed : Bool
  pub decoder : InputDecoder
  pub on_input : Bool
  pub on_resync : Bool
  pub last_pointer_log : Option ℕ
  pub last_pointer_buttons : ℕ
  pub clock_reads : ℕ
  pub writes : ℕ
  pub sent : List (List ℕ)
  pub delivered : List InputEvent
  pub resyncs : ℕ

-- The client that `Open` builds: a pad with sequence 0 anchors the history.
unfoldable pub new_client : ℕ → Bool → Client
new_client delay log_input_events = record {
  delay = delay;
  log_input_events = log_input_events;
  packet_seq = 0;
  op_seq = 0;
  history = (0, (with_sequence pad 0).bytes) ∷ [];
  burst_packets = 0;
  burst_started = 0;
  last_missing_nack_log = none;
  missing_nacks = 0;
  last_resend_log = none;
  resend_log_requests = 0;
  resend_log_ops = 0;
  resend_window_start = none;
  resend_window_count = 0;
  resend_window_ops = 0;
  nack_cooldown_until = 0;
  nack_requests = none;
  closed = false;
  decoder = new_decoder;
  on_input = false;
  on_resync = false;
  last_pointer_log = none;
  last_pointer_buttons = 0;
  clock_reads = 0;
  writes = 0;
  sent = [];
  delivered = [];
  resyncs = 0;
}

abbrev pub flush_history : Client → Client
flush_history c = record c { history = [] }

unfoldable pub close : Client → Client
close c = if c.closed then c else record c { closed = true }

-- The datagram that carries `encoded`: `make`, three PutUint16 and a copy behind the header.
unfoldable pub datagram : ℕ → List ℕ → List ℕ
datagram seq encoded = put_u16 (put_u16 (put_u16 (replicate 16 0) 0 seq) 2 0) 4 1 ++ encoded

-- `if err := step; err != nil { return err }` and what follows.
abbrev pub and_then :
    Option SendError × Client → (Client → Option SendError × Client) → Option SendError × Client
and_then (none, c) k = k c
and_then (some e, c) k = (some e, c)

module _ (env : Env) where
  -- A reading of `time.Now()`, and the state behind it.
  abbrev pub now : Client → ℕ
  now c = env.clock c.clock_reads

  abbrev pub tick : Client → Client
  tick c = record c { clock_reads = c.clock_reads + 1 }

  -- The sleep between bursts takes time and changes no state: later clock readings show it.
  unfoldable pub pace_packet : Client → Client
  pace_packet c =
      if c.delay == 0
      then c
      else let c1 = if c.burst_packets == 0 then record (tick c) { burst_started = now c } else c in
        if ltb c1.burst_packets packet_burst_size
        then record c1 { burst_packets = c1.burst_packets + 1 }
        else let c2 = tick c1 in record (tick c2) { burst_started = now c2; burst_packets = 1 }

  unfoldable pub send_packet : Client → List ℕ → Option SendError × Client
  unfolding pace_packet
  send_packet c0 encoded =
      let c = pace_packet c0 in
      let seq = u16 (c.packet_seq + 1) in
      let c' = record c { packet_seq = seq; writes = c.writes + 1 } in
      if env.write_ok c.writes
      then (none, record c' { sent = c.sent ++ (datagram seq encoded ∷ []) })
      else (some write_failed, c')

  -- The loop of `sendEncodedOperationsLocked`: `buffer` is what is collected so far. No operation is
  -- longer than the buffer's capacity of 1432, so the capacity stays.
  unfoldable pub send_operations : Client → List ℕ → List (List ℕ) → Option SendError × Client
  send_operations c buffer [] = if length buffer == 0 then (none, c) else send_packet c buffer
  send_operations c buffer (encoded ∷ rest) =
      let full = and_then (send_packet c buffer) (λ c'. send_operations c' encoded rest) in
      let more = send_operations c (buffer ++ encoded) rest in
      if ltb 0 (length buffer)
        && ltb (max_datagram_size - packet_header_size) (length buffer + length encoded)
      then full
      else more

-- `c.opSeq++` where the operation consumes a sequence.
abbrev pub next_seq : ℕ → Operation → ℕ
next_seq seq op = if op.increment then u32 (seq + 1) else seq

-- Filing a sent operation, and dropping the oldest once there are too many.
unfoldable pub remember : Client → List ℕ → Client
unfolding insert delete
remember c bytes =
    let h = insert c.op_seq bytes c.history in
    record c {
      history =
          if ltb max_history_size (length h)
          then delete ((c.op_seq + 4294967296 - max_history_size) % 4294967296) h
          else h;
    }

-- One round of the loop of `SendBatch`: the numbered bytes, or the error.
unfoldable pub encode_operation : Client → Operation → Option (List ℕ) × Client
encode_operation c op =
    if ltb max_datagram_size (length op.bytes + packet_header_size)
    then (none, c)
    else let c1 = record c { op_seq = next_seq c.op_seq op } in
      let bytes = (with_sequence op (u16 c1.op_seq)).bytes in
      (some bytes, if op.increment then remember c1 bytes else c1)

-- `encoded = append(encoded, bytes)` and the error returns around it.
abbrev pub on_encoded :
    Option (List ℕ) × Client
    → (List ℕ → Client → Option (List (List ℕ)) × Client)
    → Option (List (List ℕ)) × Client
on_encoded (none, c) k = (none, c)
on_encoded (some bytes, c) k = k bytes c

abbrev pub push_encoded : List ℕ → Option (List (List ℕ)) × Client → Option (List (List ℕ)) × Client
push_encoded bytes (none, c) = (none, c)
push_encoded bytes (some encoded, c) = (some (bytes ∷ encoded), c)

-- The loop of `SendBatch`; `none` is the error that an operation is too large.
unfoldable pub encode_batch : Client → List Operation → Option (List (List ℕ)) × Client
encode_batch c [] = (some [], c)
encode_batch c (op ∷ ops) =
    on_encoded (encode_operation c op) (λ bytes c'. push_encoded bytes (encode_batch c' ops))

abbrev pub on_batch :
    Option (List (List ℕ)) × Client
    → (List (List ℕ) → Client → Option SendError × Client)
    → Option SendError × Client
on_batch (none, c) k = (some too_large, c)
on_batch (some encoded, c) k = k encoded c

module _ (env : Env) where
  unfoldable pub send_batch : Client → List Operation → Option SendError × Client
  send_batch c ops =
      if c.closed
      then (some closed_error, c)
      else on_batch (encode_batch c ops) (λ encoded c'. send_operations env c' [] encoded)

  abbrev pub send : Client → Operation → Option SendError × Client
  send c op = send_batch c (op ∷ [])
