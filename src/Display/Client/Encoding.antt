-- ===== src/Display/Client/Encoding.antt =====
-- SendBatch numbers its operations and files them: what it encodes, and the history that it keeps.
use sun_ray2server.Prelude.{
  ℕ, ◌+◌, ◌≤◌, ◌≡◌, refl, ap, ◌∙◌, Bool, List, [], ◌∷◌, Option, none, some, length, All, ltb, arith,
  Bool-cases, inl, inr,
}
use sun_ray2server.Prelude.Bytes.{u16, u32, get_u16-put_u16}
use sun_ray2server.Display.Operation.{Operation, with_sequence, pad}
use sun_ray2server.Display.Sequence.{IsU32}
use sun_ray2server.Display.Client.{
  Client, next_seq, remember, encode_operation, encode_batch, on_encoded, push_encoded,
  max_history_size, new_client,
}
use sun_ray2server.Display.Client.Window.{IsWindow, Numbered, countdown, remember-IsWindow}

-- The history is a window of at most 8192 operations that ends in the operation counter.
pub record IsRecent (c : Client) : Type 0 where
  pub in_range : IsU32 c.op_seq
  pub size : ℕ
  pub bounded : size ≤ max_history_size
  pub window : IsWindow c.op_seq size c.history

-- Operations carry a header and fit a datagram.
abbrev pub Sendable : Operation → Type 0
Sendable op = (12 ≤ length op.bytes) × (length op.bytes ≤ 1432)

pub new_client-IsRecent : (delay : ℕ) (log : Bool) → IsRecent (new_client delay log)
unfolding new_client
new_client-IsRecent delay log = record {
  in_range = omega arith;
  size = 1;
  bounded = omega arith;
  window = record {
    contiguous = unfold countdown in refl;
    numbered = unfold with_sequence pad in (refl, tt);
  };
}

Numbered-bytes :
    (op : Operation) (k : ℕ) → 12 ≤ length op.bytes → Numbered (k, (with_sequence op (u16 k)).bytes)
unfolding with_sequence
Numbered-bytes op k h = get_u16-put_u16 op.bytes 2 (u16 k) (omega arith) ∙ omega arith

remember_op_seq : (c : Client) (v : List ℕ) → (remember c v).op_seq ≡ c.op_seq
unfolding remember
remember_op_seq c v = refl

filed-IsRecent :
    (c : Client) (bytes : List ℕ)
    → IsRecent c
    → Numbered (u32 (c.op_seq + 1), bytes)
    → IsRecent (remember (record c { op_seq = u32 (c.op_seq + 1) }) bytes)
unfolding remember
filed-IsRecent c bytes w n =
    let (k, le, _, win) =
      remember-IsWindow (record c { op_seq = u32 (c.op_seq + 1) }) c.op_seq w.size bytes w.in_range
        w.bounded w.window refl n in
    record { in_range = omega arith; size = k; bounded = le; window = win }

encode_operation-IsRecent :
    (c : Client) (op : Operation)
    → IsRecent c
    → 12 ≤ length op.bytes
    → IsRecent (encode_operation c op).1
unfolding encode_operation
encode_operation-IsRecent c op w h = elim (Bool-cases (ltb 1448 (length op.bytes + 16))) [
  | inl e ↦ rw e w
  | inr e ↦ elim (Bool-cases op.increment) [
    | inl f ↦ rw e (
        simp f (
          filed-IsRecent c (with_sequence op (u16 (u32 (c.op_seq + 1)))).bytes w
            (Numbered-bytes op (u32 (c.op_seq + 1)) h)))
    | inr f ↦ rw e (simp f w)
  ]
]

-- The bytes that the operations get, one after the other, from the counter's value on.
unfoldable pub numbered_from : ℕ → List Operation → List (List ℕ)
numbered_from seq [] = []
numbered_from seq (op ∷ ops) =
    (with_sequence op (u16 (next_seq seq op))).bytes ∷ numbered_from (next_seq seq op) ops

-- The counter behind the operations.
unfoldable pub seq_after : ℕ → List Operation → ℕ
seq_after seq [] = seq
seq_after seq (op ∷ ops) = seq_after (next_seq seq op) ops

encode_operation_lem :
    (c : Client) (op : Operation)
    → length op.bytes ≤ 1432
    → let r = encode_operation c op in
      (r.0 ≡ some (with_sequence op (u16 (next_seq c.op_seq op))).bytes)
      × (r.1.op_seq ≡ next_seq c.op_seq op)
      × (r.1.packet_seq ≡ c.packet_seq)
      × (r.1.sent ≡ c.sent)
unfolding encode_operation remember
encode_operation_lem c op h = ground arith

on_encoded-some :
    (r : Option (List ℕ) × Client) (k : List ℕ → Client → Option (List (List ℕ)) × Client)
    {b : List ℕ}
    → r.0 ≡ some b
    → on_encoded r k ≡ k b r.1
on_encoded-some (none, c) k e = cc
on_encoded-some (some x, c) k {b} e = let p : x ≡ b = cc in ap (λ t. k t c) p

push_encoded-some :
    (b : List ℕ) (r : Option (List (List ℕ)) × Client) {bs : List (List ℕ)}
    → r.0 ≡ some bs
    → push_encoded b r ≡ (some (b ∷ bs), r.1)
push_encoded-some b (none, c) e = cc
push_encoded-some b (some x, c) {bs} e = let p : x ≡ bs = cc in rw p

pub encode_batch_lem :
    (c : Client) (ops : List Operation)
    → All Sendable ops
    → let r = encode_batch c ops in
      (r.0 ≡ some (numbered_from c.op_seq ops))
      × (r.1.op_seq ≡ seq_after c.op_seq ops)
      × (r.1.packet_seq ≡ c.packet_seq)
      × (r.1.sent ≡ c.sent)
unfolding encode_batch numbered_from seq_after
encode_batch_lem c [] h = (refl, refl, refl, refl)
encode_batch_lem c (op ∷ ops) (p, h) =
    let (e, s, q, t) = encode_operation_lem c op p.1 in
    let c1 = (encode_operation c op).1 in
    let (e1, s1, q1, t1) = encode_batch_lem c1 ops h in
    rw
      (on_encoded-some (encode_operation c op)
        (λ bytes c'. push_encoded bytes (encode_batch c' ops)) e)
      (rw (push_encoded-some _ (encode_batch c1 ops) e1) (rw s, rw (← s) s1, q1 ∙ q, t1 ∙ t))

on_encoded_keep :
    (P : Client → Type 0) (r : Option (List ℕ) × Client)
    (k : List ℕ → Client → Option (List (List ℕ)) × Client)
    → P r.1
    → ((b : List ℕ) (c : Client) → P c → P (k b c).1)
    → P (on_encoded r k).1
on_encoded_keep P (none, c) k p h = p
on_encoded_keep P (some b, c) k p h = h b c p

push_encoded_keep :
    (P : Client → Type 0) (b : List ℕ) (r : Option (List (List ℕ)) × Client)
    → P r.1
    → P (push_encoded b r).1
push_encoded_keep P b (none, c) p = p
push_encoded_keep P b (some bs, c) p = p

pub encode_batch-IsRecent :
    (c : Client) (ops : List Operation)
    → IsRecent c
    → All (λ op. 12 ≤ length op.bytes) ops
    → IsRecent (encode_batch c ops).1
unfolding encode_batch
encode_batch-IsRecent c [] w h = w
encode_batch-IsRecent c (op ∷ ops) w (p, h) =
    on_encoded_keep IsRecent (encode_operation c op)
      (λ bytes c'. push_encoded bytes (encode_batch c' ops)) (encode_operation-IsRecent c op w p)
      (λ b c' w'.
        push_encoded_keep IsRecent b (encode_batch c' ops) (encode_batch-IsRecent c' ops w' h))
