-- ===== src/Display/Packet.antt =====
-- internal/display/client.go: handlePacket and dispatchInput, the receiving side of the channel.
pub mod Parsing
use sun_ray2server.Prelude.{
  ℕ, zero, suc, ◌+◌, Bool, true, ◌||◌, not, List, [], ◌∷◌, ◌++◌, Option, none, some, length, get_or,
  take, drop, ltb, leb, ◌==◌, if◌then◌else◌,
}
use sun_ray2server.Prelude.Bytes.{get_u32}
use sun_ray2server.Display.Operation.{pad}
use sun_ray2server.Display.Input.{
  InputEvent, InputKind, input_key, input_pointer, keyboard, pointer, is_zero,
}
use sun_ray2server.Display.Client.{Env, Client, packet_header_size, now, tick, send}
use sun_ray2server.Display.Resend.{queue_resend}

-- `now.Sub(c.lastPointerLog) >= 250*time.Millisecond`; the zero time is long ago.
abbrev pub log_due : Option ℕ → ℕ → Bool
log_due none t = true
log_due (some start) t = leb (start + 250000000) t

-- An installed handler gets the event; the rest decides what is logged.
abbrev pub deliver : Client → InputEvent → Client
deliver c event = if c.on_input then record c { delivered = c.delivered ++ (event ∷ []) } else c

module _ (env : Env) where
  log_pointer : Client → InputEvent → Client
  log_pointer c0 event =
      let t = now env c0 in
      let c = tick env c0 in
      if not (event.buttons == c.last_pointer_buttons)
        || not (is_zero event.wheel)
        || log_due c.last_pointer_log t
      then record c { last_pointer_log = some t; last_pointer_buttons = event.buttons }
      else c

  log_event : Client → InputKind → InputEvent → Client
  log_event c input_key event = c
  log_event c input_pointer event = log_pointer c event

  unfoldable pub dispatch_input : Client → InputEvent → Client
  unfolding log_event log_pointer
  dispatch_input c event =
      let c1 = deliver c event in if c1.log_input_events then log_event c1 event.kind event else c1

  unfoldable pub dispatch_all : Client → List InputEvent → Client
  dispatch_all c [] = c
  dispatch_all c (e ∷ es) = dispatch_all (dispatch_input c e) es

  -- One operation at the front of `rest` (`packet[offset:]`), and the bytes that it takes; `none`
  -- ends the loop.
  unfoldable pub handle_operation : Client → List ℕ → Option ℕ × Client
  handle_operation c rest =
      let opcode = get_or rest 0 0 in
      if opcode == 0xC1
      then (if ltb (length rest) 16
          then (none, c)
          else let r = keyboard c.decoder (take 16 rest) in
            let c1 = record c { decoder = r.1 } in
            elim r.0 [ none ↦ (none, c1) | some events ↦ (some 16, dispatch_all c1 events) ])
      else if opcode == 0xC2
      then (if ltb (length rest) 12
          then (none, c)
          else let r = pointer c.decoder (take 12 rest) in
            let c1 = record c { decoder = r.1 } in
            elim r.0 [
              | none ↦ (none, c1)
              | some p ↦ (some 12, if p.1 then dispatch_input c1 p.0 else c1)
            ])
      else if opcode == 0xC4
      then (if ltb (length rest) 16 then (none, c) else (
        none,
        queue_resend env c
            (record { marker = get_u32 rest 4; from = get_u32 rest 8; to = get_u32 rest 12 }),
      ))
      else if opcode == 0xC7
      then (if ltb (length rest) 28 then (none, c) else (some 28, c))
      else (none, c)

  -- The loop over the operations of a packet.
  unfoldable pub handle_operations : ℕ → Client → List ℕ → Client
  handle_operations fuel c [] = c
  handle_operations zero c (b ∷ bs) = c
  handle_operations (suc fuel) c (b ∷ bs) =
      let r = handle_operation c (b ∷ bs) in
      elim r.0 [ none ↦ r.1 | some n ↦ handle_operations fuel r.1 (drop n (b ∷ bs)) ]

  -- A round takes 12 bytes or more, so as many rounds as bytes are enough. An error of the
  -- keepalive is only logged.
  unfoldable pub handle_packet : Client → List ℕ → Client
  handle_packet c packet =
      if ltb (length packet) packet_header_size
      then c
      else if length packet == packet_header_size
      then (send env c pad).1
      else handle_operations (length packet) c (drop packet_header_size packet)
