-- ===== src/Display/Client/Frame.antt =====
-- What the sending loop leaves alone.
use sun_ray2server.Prelude.{
  ℕ, ◌+◌, ◌≡◌, refl, ◌∙◌, true, ◌&&◌, List, [], ◌∷◌, ◌++◌, Option, none, some, length, ltb, ◌==◌,
  arith, Bool-cases, inl, inr,
}
use sun_ray2server.Display.Client.{
  Env, Client, SendError, pace_packet, send_packet, send_operations, and_then,
}

and_then_frame {ℓ} :
    {A : Type ℓ} (f : Client → A) (r : Option SendError × Client)
    (k : Client → Option SendError × Client) (a : A)
    → f r.1 ≡ a
    → ((c : Client) → f c ≡ a → f (k c).1 ≡ a)
    → f (and_then r k).1 ≡ a
and_then_frame f (none, c) k a p h = h c p
and_then_frame f (some e, c) k a p h = p

-- A part of the state that sending one packet keeps, the loop keeps.
send_operations_frame {ℓ} :
    {A : Type ℓ} (env : Env) (f : Client → A)
    (keep : (c : Client) (p : List ℕ) → f (send_packet env c p).1 ≡ f c) (c : Client)
    (buffer : List ℕ) (ops : List (List ℕ)) (a : A)
    → f c ≡ a
    → f (send_operations env c buffer ops).1 ≡ a
unfolding send_operations
send_operations_frame env f keep c buffer [] a h = elim (Bool-cases (length buffer == 0)) [
  | inl e ↦ rw e h
  | inr e ↦ rw e (keep c buffer ∙ h)
]
send_operations_frame env f keep c buffer (op ∷ ops) a h =
    elim (Bool-cases (ltb 0 (length buffer) && ltb 1432 (length buffer + length op))) [
      | inl e ↦ rw e (
          and_then_frame f (send_packet env c buffer) (λ c'. send_operations env c' op ops) a
            (keep c buffer ∙ h) (λ c' h'. send_operations_frame env f keep c' op ops a h'))
      | inr e ↦ rw e (send_operations_frame env f keep c (buffer ++ op) ops a h)
    ]

pub send_packet_keeps :
    (env : Env) (c : Client) (p : List ℕ)
    → let c' = (send_packet env c p).1 in
      (c'.op_seq ≡ c.op_seq)
      × (c'.history ≡ c.history)
      × (c'.closed ≡ c.closed)
      × (c'.nack_cooldown_until ≡ c.nack_cooldown_until)
unfolding send_packet
send_packet_keeps env c p = ground arith

-- Sending keeps the operation counter, the history and the closed flag.
pub send_operations_keeps :
    (env : Env) (c : Client) (buffer : List ℕ) (ops : List (List ℕ))
    → let c' = (send_operations env c buffer ops).1 in
      (c'.op_seq ≡ c.op_seq)
      × (c'.history ≡ c.history)
      × (c'.closed ≡ c.closed)
      × (c'.nack_cooldown_until ≡ c.nack_cooldown_until)
send_operations_keeps env c buffer ops = (
  send_operations_frame env (λ (t : Client). t.op_seq) (λ c p. (send_packet_keeps env c p).0) c
      buffer ops c.op_seq refl,
  send_operations_frame env (λ (t : Client). t.history) (λ c p. (send_packet_keeps env c p).1) c
      buffer ops c.history refl,
  send_operations_frame env (λ (t : Client). t.closed) (λ c p. (send_packet_keeps env c p).2) c
      buffer ops c.closed refl,
  send_operations_frame env (λ (t : Client). t.nack_cooldown_until)
      (λ c p. (send_packet_keeps env c p).3) c buffer ops c.nack_cooldown_until refl,
)

send_packet-none :
    (env : Env) (c : Client) (p : List ℕ)
    → ((i : ℕ) → env.write_ok i ≡ true)
    → (send_packet env c p).0 ≡ none
unfolding send_packet
send_packet-none env c p h = ground (arith, h (pace_packet env c).writes)

and_then-none :
    (r : Option SendError × Client) (k : Client → Option SendError × Client)
    → r.0 ≡ none
    → ((c : Client) → (k c).0 ≡ none)
    → (and_then r k).0 ≡ none
and_then-none (none, c) k p h = h c
and_then-none (some e, c) k p h = p

-- With a socket that takes every datagram, sending operations succeeds.
pub send_operations-none :
    (env : Env) (c : Client) (buffer : List ℕ) (ops : List (List ℕ))
    → ((i : ℕ) → env.write_ok i ≡ true)
    → (send_operations env c buffer ops).0 ≡ none
unfolding send_operations
send_operations-none env c buffer [] h = elim (Bool-cases (length buffer == 0)) [
  | inl e ↦ rw e
  | inr e ↦ rw e (send_packet-none env c buffer h)
]
send_operations-none env c buffer (op ∷ ops) h =
    elim (Bool-cases (ltb 0 (length buffer) && ltb 1432 (length buffer + length op))) [
      | inl e ↦ rw e (
          and_then-none (send_packet env c buffer) (λ c'. send_operations env c' op ops)
            (send_packet-none env c buffer h) (λ c'. send_operations-none env c' op ops h))
      | inr e ↦ rw e (send_operations-none env c (buffer ++ op) ops h)
    ]
