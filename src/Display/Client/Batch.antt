-- ===== src/Display/Client/Batch.antt =====
-- What SendBatch does: numbering, filing, packing and sending.
use sun_ray2server.Prelude.{
  ℕ, ◌≤◌, ◌<◌, ◌≡◌, refl, sym, ap, ◌∙◌, true, false, List, [], ◌∷◌, Option, none, some, length, All,
  flatten, arith, Bool-cases, inl, inr, if_false, All-map,
}
use mathlib.Core.Path.{subst₂}
use sun_ray2server.Prelude.Bytes.{u16, length-put_u16}
use sun_ray2server.Display.Operation.{Operation, with_sequence}
use sun_ray2server.Display.Client.{
  Env, Client, SendError, next_seq, encode_batch, send_batch, send_operations, on_batch,
}
use sun_ray2server.Display.Client.Window.{IsWindow}
use sun_ray2server.Display.Client.Packing.{
  Delivery, payloads, groups, flatten-groups, groups-fit, send_operations-Delivery,
}
use sun_ray2server.Display.Client.Frame.{send_operations_keeps, send_operations-none}
use sun_ray2server.Display.Client.Encoding.{
  IsRecent, Sendable, numbered_from, seq_after, encode_batch_lem, encode_batch-IsRecent,
}

IsRecent-of_eq :
    (c c' : Client) → c'.op_seq ≡ c.op_seq → c'.history ≡ c.history → IsRecent c → IsRecent c'
IsRecent-of_eq c c' p q w = record {
  in_range = rw p w.in_range;
  size = w.size;
  bounded = w.bounded;
  window = subst₂ (λ s m. IsWindow s w.size m) (sym p) (sym q) w.window;
}

on_batch-some :
    (r : Option (List (List ℕ)) × Client) (k : List (List ℕ) → Client → Option SendError × Client)
    {bs : List (List ℕ)}
    → r.0 ≡ some bs
    → on_batch r k ≡ k bs r.1
on_batch-some (none, c) k e = cc
on_batch-some (some x, c) k {bs} e = let p : x ≡ bs = cc in ap (λ t. k t c) p

on_batch_keep :
    (P : Client → Type 0) (r : Option (List (List ℕ)) × Client)
    (k : List (List ℕ) → Client → Option SendError × Client)
    → P r.1
    → ((b : List (List ℕ)) (c : Client) → P c → P (k b c).1)
    → P (on_batch r k).1
on_batch_keep P (none, c) k p h = p
on_batch_keep P (some b, c) k p h = h b c p

-- On an open client that fits its operations, the batch is the sending of the numbered bytes.
send_batch-open :
    (env : Env) (c : Client) (ops : List Operation)
    → c.closed ≡ false
    → All Sendable ops
    → send_batch env c ops
      ≡ send_operations env (encode_batch c ops).1 [] (numbered_from c.op_seq ops)
unfolding send_batch
send_batch-open env c ops o h =
    if_false c.closed _ _ o
    ∙ on_batch-some (encode_batch c ops) (λ encoded c'. send_operations env c' [] encoded)
        (encode_batch_lem c ops h).0

numbered_from-fit :
    (seq : ℕ) (ops : List Operation)
    → All Sendable ops
    → All (λ b. (0 < length b) × (length b ≤ 1432)) (numbered_from seq ops)
unfolding numbered_from with_sequence
numbered_from-fit seq [] h = tt
numbered_from-fit seq (op ∷ ops) (p, h) = (
  omega (arith, length-put_u16 op.bytes 2 (u16 (next_seq seq op))),
  numbered_from-fit (next_seq seq op) ops h,
)

Delivery-of_eq :
    (c c' : Client) (r : Option SendError × Client) (ps : List (List ℕ))
    → c'.packet_seq ≡ c.packet_seq
    → c'.sent ≡ c.sent
    → Delivery c' r ps
    → Delivery c r ps
Delivery-of_eq c c' r ps p q (inl (e, s)) = inl (e, rw (← p, ← q) s)
Delivery-of_eq c c' r ps p q (inr (e, done, x, rest, eq, s)) =
    inr (e, done, x, rest, eq, rw (← p, ← q) s)

-- Whatever the socket does, sending a batch keeps the history a window of at most 8192 operations
-- that ends in the operation counter, each filed under the sequence in its header, if the
-- operations carry a header of 12 bytes.
pub send_batch-IsRecent :
    (env : Env) (c : Client) (ops : List Operation)
    → IsRecent c
    → All (λ op. 12 ≤ length op.bytes) ops
    → IsRecent (send_batch env c ops).1
unfolding send_batch
send_batch-IsRecent env c ops w h = elim (Bool-cases c.closed) [
  | inl e ↦ simp e w
  | inr e ↦ simp e (
      on_batch_keep IsRecent (encode_batch c ops) (λ encoded c'. send_operations env c' [] encoded)
        (encode_batch-IsRecent c ops w h)
        (λ b c' w'.
          let (p, q, _, _) = send_operations_keeps env c' [] b in
          IsRecent-of_eq c' (send_operations env c' [] b).1 p q w'))
]

-- An open client whose operations fit a datagram sends them all, numbered on from its counter:
-- groups of whole operations, in order, each of at most 1432 bytes, become the payloads of
-- datagrams, of which the socket sees all, or those before the first write that fails. The counter
-- moves on by the operations that consume a sequence.
pub send_batch-Delivery :
    (env : Env) (c : Client) (ops : List Operation)
    → c.closed ≡ false
    → All Sendable ops
    → let r = send_batch env c ops in
      (gs : List (List (List ℕ))) × (flatten gs ≡ numbered_from c.op_seq ops)
      × All (λ g. (0 < length (flatten g)) × (length (flatten g) ≤ 1432)) gs
      × Delivery c r (payloads gs)
      × (r.1.op_seq ≡ seq_after c.op_seq ops)
send_batch-Delivery env c ops o h =
    let (e, s, q, t) = encode_batch_lem c ops h in
    let c1 = (encode_batch c ops).1 in
    let bs = numbered_from c.op_seq ops in
    let fit = numbered_from-fit c.op_seq ops h in
    rw (send_batch-open env c ops o h) (
      groups [] bs,
      flatten-groups [] bs (All-map (λ b p. p.0) bs fit) (λ _. refl),
      groups-fit [] bs (All-map (λ b p. p.1) bs fit) (omega arith),
      Delivery-of_eq c c1 (send_operations env c1 [] bs) (payloads (groups [] bs)) q t
          (send_operations-Delivery env c1 [] bs),
      (send_operations_keeps env c1 [] bs).0 ∙ s,
    )

-- With a socket that takes every datagram, an open client sends a batch of operations that each fit a
-- datagram with no error.
pub send_batch-none :
    (env : Env) (c : Client) (ops : List Operation)
    → c.closed ≡ false
    → All Sendable ops
    → ((i : ℕ) → env.write_ok i ≡ true)
    → (send_batch env c ops).0 ≡ none
send_batch-none env c ops o h ok =
    rw (send_batch-open env c ops o h)
      (send_operations-none env (encode_batch c ops).1 [] (numbered_from c.op_seq ops) ok)
