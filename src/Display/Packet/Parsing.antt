-- ===== src/Display/Packet/Parsing.antt =====
-- The packet loop: how it ends, and what it delivers.
use sun_ray2server.Prelude.{
  ℕ, zero, suc, ◌+◌, ◌*◌, ◌≤◌, ◌<◌, ◌≡◌, refl, sym, ap, ◌∙◌, true, List, [], ◌∷◌, ◌++◌, none, some,
  length, length-drop, get_or, drop, arith, inl, inr, Option-cases, take_all, drop_all, drop-append,
  length-append,
}
use mathlib.Core.List.{append-nil, append_assoc}
use sun_ray2server.Display.Input.{
  key_events, InputEvent, InputKind, input_key, input_pointer, keyboard,
}
use sun_ray2server.Display.Client.{Env, Client}
use sun_ray2server.Display.Packet.{
  dispatch_input, dispatch_all, handle_operation, handle_operations, handle_packet, deliver,
  log_event, log_pointer,
}

-- An operation that the loop goes on behind takes 12 bytes at least, all of them present.
handle_operation_takes :
    (env : Env) (c : Client) (rest : List ℕ) {n : ℕ}
    → (handle_operation env c rest).0 ≡ some n
    → (12 ≤ n) × (n ≤ length rest)
unfolding handle_operation
handle_operation_takes env c rest e = ground arith

module _ (env : Env) (c : Client) (b : ℕ) (bs : List ℕ) (fuel : ℕ) where
  loop_stop :
      (handle_operation env c (b ∷ bs)).0 ≡ none
      → handle_operations env (suc fuel) c (b ∷ bs) ≡ (handle_operation env c (b ∷ bs)).1
  unfolding handle_operations
  loop_stop e = ground arith

  loop_step :
      (n : ℕ)
      → (handle_operation env c (b ∷ bs)).0 ≡ some n
      → handle_operations env (suc fuel) c (b ∷ bs)
        ≡ handle_operations env fuel (handle_operation env c (b ∷ bs)).1 (drop n (b ∷ bs))
  unfolding handle_operations
  loop_step n e = ground arith

loop_nil : (env : Env) (fuel : ℕ) (c : Client) → handle_operations env fuel c [] ≡ c
unfolding handle_operations
loop_nil env zero c = refl
loop_nil env (suc fuel) c = refl

-- The loop of handlePacket without a bound on its rounds: `Runs env k c rest c'` says that from client
-- `c` and the bytes `rest` it takes `k` operations and then ends by its own condition in `c'`.
pub data Runs (env : Env) : ℕ → Client → List ℕ → Client → Type 0 where
  at_end : (c : Client) → Runs env 0 c [] c
  returned :
      (c : Client) (b : ℕ) (bs : List ℕ)
      → (handle_operation env c (b ∷ bs)).0 ≡ none
      → Runs env 0 c (b ∷ bs) (handle_operation env c (b ∷ bs)).1
  taken :
      {c' : Client} {k : ℕ} (c : Client) (b : ℕ) (bs : List ℕ) (n : ℕ)
      → (handle_operation env c (b ∷ bs)).0 ≡ some n
      → Runs env k (handle_operation env c (b ∷ bs)).1 (drop n (b ∷ bs)) c'
      → Runs env (k + 1) c (b ∷ bs) c'

-- A run that ends in `c'` after at most one operation for every 12 bytes.
abbrev pub RunsTo : Env → Client → List ℕ → Client → Type 0
RunsTo env c rest c' = (k : ℕ) × (12 * k ≤ length rest) × Runs env k c rest c'

handle_operations-RunsTo :
    (env : Env) (fuel : ℕ) (c : Client) (rest : List ℕ)
    → length rest ≤ fuel
    → RunsTo env c rest (handle_operations env fuel c rest)
handle_operations-RunsTo env fuel c [] h = rw (loop_nil env fuel c) (0, omega arith, at_end c)
handle_operations-RunsTo env zero c (b ∷ bs) h = absurd (omega arith)
handle_operations-RunsTo env (suc fuel) c (b ∷ bs) h =
    elim (Option-cases (handle_operation env c (b ∷ bs)).0) [
      | inl e ↦ rw (loop_stop env c b bs fuel e) (0, omega arith, returned c b bs e)
      | inr (n, e) ↦
          let (lo, hi) = handle_operation_takes env c (b ∷ bs) e in
          let size = length-drop n (b ∷ bs) in
          let (k, few, run) =
            handle_operations-RunsTo env fuel (handle_operation env c (b ∷ bs)).1 (drop n (b ∷ bs))
              (omega (arith, size)) in
          rw (loop_step env c b bs fuel n e) (k + 1, omega (arith, size, few), taken c b bs n e run)
    ]

whole_packet :
    (env : Env) (c : Client) (packet : List ℕ) (n : ℕ)
    → length packet ≡ n
    → 16 < n
    → handle_packet env c packet ≡ handle_operations env n c (drop 16 packet)
unfolding handle_packet
whole_packet env c packet n l h = ground arith

-- For every packet longer than its 16 header bytes, the loop over the operations behind the header
-- ends by its own condition, at the end of the packet or at an operation that it returns on, after
-- at most one operation for every 12 of these bytes, and in the client that handle_packet gives.
pub handle_packet-RunsTo :
    (env : Env) (c : Client) (packet : List ℕ)
    → 16 < length packet
    → RunsTo env c (drop 16 packet) (handle_packet env c packet)
handle_packet-RunsTo env c packet h = rw (whole_packet env c packet (length packet) refl h) (
    handle_operations-RunsTo env (length packet) c (drop 16 packet)
      (omega (arith, length-drop 16 packet)))

log_event_keeps :
    (env : Env) (c : Client) (k : InputKind) (e : InputEvent)
    → let c' = log_event env c k e in
      (c'.delivered ≡ c.delivered) × (c'.on_input ≡ c.on_input) × (c'.decoder ≡ c.decoder)
unfolding log_event log_pointer
log_event_keeps env c input_key e = (refl, refl, refl)
log_event_keeps env c input_pointer e = ground arith

deliver_lem :
    (c : Client) (e : InputEvent)
    → c.on_input ≡ true
    → let c' = deliver c e in
      (c'.delivered ≡ c.delivered ++ (e ∷ [])) × (c'.on_input ≡ true) × (c'.decoder ≡ c.decoder)
deliver_lem c e h = ground arith

dispatch_input_lem :
    (env : Env) (c : Client) (e : InputEvent)
    → c.on_input ≡ true
    → let c' = dispatch_input env c e in
      (c'.delivered ≡ c.delivered ++ (e ∷ [])) × (c'.on_input ≡ true) × (c'.decoder ≡ c.decoder)
unfolding dispatch_input
dispatch_input_lem env c e h =
    ground (arith, deliver_lem c e h, log_event_keeps env (deliver c e) e.kind e)

dispatch_all_lem :
    (env : Env) (c : Client) (es : List InputEvent)
    → c.on_input ≡ true
    → let c' = dispatch_all env c es in
      (c'.delivered ≡ c.delivered ++ es) × (c'.on_input ≡ true) × (c'.decoder ≡ c.decoder)
unfolding dispatch_all
dispatch_all_lem env c [] h = (sym (append-nil c.delivered), h, refl)
dispatch_all_lem env c (e ∷ es) h =
    let (d, o, k) = dispatch_input_lem env c e h in
    let (d1, o1, k1) = dispatch_all_lem env (dispatch_input env c e) es o in
    (d1 ∙ rw d (append_assoc c.delivered (e ∷ []) es), o1, k1 ∙ k)

keyboard_operation :
    (env : Env) (c : Client) (op : List ℕ)
    → length op ≡ 16
    → get_or op 0 0 ≡ 0xC1
    → let r = handle_operation env c op in
      (r.0 ≡ some 16)
      × (r.1
          ≡ dispatch_all env
              (record c { decoder = (keyboard c.decoder op).1 })
              (key_events c.decoder op))
unfolding handle_operation keyboard
keyboard_operation env c op l o = ground (arith, take_all 16 op (omega arith))

-- A packet that holds a keyboard report behind its 16 header bytes hands the report's events, in
-- order and nothing else, to the installed handler, and keeps the decoder's new state.
pub handle_packet-keyboard :
    (env : Env) (c : Client) (header op : List ℕ)
    → length header ≡ 16
    → length op ≡ 16
    → get_or op 0 0 ≡ 0xC1
    → c.on_input ≡ true
    → let c' = handle_packet env c (header ++ op) in
      (c'.delivered ≡ c.delivered ++ key_events c.decoder op)
      × (c'.decoder ≡ (keyboard c.decoder op).1)
handle_packet-keyboard env c header [] lh lo o i = absurd (omega arith)
handle_packet-keyboard env c header (b ∷ bs) lh lo o i =
    let op : List ℕ = b ∷ bs in
    let (e, s) = keyboard_operation env c op lo o in
    let size = length-append header op in
    let c1 = record c { decoder = (keyboard c.decoder op).1 } in
    let (d, _, k) = dispatch_all_lem env c1 (key_events c.decoder op) i in
    let run : handle_operations env 32 c op ≡ dispatch_all env c1 (key_events c.decoder op) =
      loop_step env c b bs 31 16 e
      ∙ ap (handle_operations env 31 (handle_operation env c op).1) (drop_all 16 op (omega arith))
      ∙ loop_nil env 31 (handle_operation env c op).1
      ∙ s in
    let whole : handle_packet env c (header ++ op) ≡ handle_operations env 32 c op =
      whole_packet env c (header ++ op) 32 (omega arith) (omega arith)
      ∙ ap (handle_operations env 32 c) (drop-append 16 header op lh) in
    rw (whole ∙ run) (d, k)
