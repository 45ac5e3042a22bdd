-- ===== src/Display/Resend/Replay.antt =====
-- What a replay sends, and what it leaves alone.
use sun_ray2server.Prelude.{
  ℕ, zero, suc, ◌+◌, ◌-◌, ◌≤◌, ◌<◌, ◌≡◌, ◌⊎◌, refl, min, true, false, List, [], ◌∷◌, ◌++◌, none,
  some, length, flatten, All, arith, inl, inr, Option-cases,
}
use sun_ray2server.Prelude.Bytes.{u16}
use sun_ray2server.Prelude.{get_elem?}
use sun_ray2server.Display.Sequence.{extend_operation_sequence}
use native.Mathlib.Nat.{add-zero, add-suc, suc-add}
use native.Mathlib.Numerals.{add-one}
use sun_ray2server.Display.Client.{
  Env, Client, History, NackRange, lookup, send_packet, send_operations, datagram,
}
use sun_ray2server.Display.Client.{pace_packet}
use sun_ray2server.Display.Client.Packing.{
  payloads, groups, datagrams, flatten-groups, send_operations-Delivery, send_packet_cases,
}
use sun_ray2server.Display.Client.Frame.{send_operations-none, send_operations_keeps}
use sun_ray2server.Prelude.{All-map}
use sun_ray2server.Display.Resend.{log_resend}
use sun_ray2server.Display.Resend.{
  collect_replay, completion, resend, replay_range, send_replay, log_missing_nack, extended_to,
  send_resend_completion,
}

collect_none : (h : History) (seq n : ℕ) → lookup seq h ≡ none → collect_replay h seq n ≡ []
unfolding collect_replay
collect_none h seq zero e = refl
collect_none h seq (suc n) e = ground arith

collect_some :
    (h : History) (seq n : ℕ) (v : List ℕ)
    → lookup seq h ≡ some v
    → collect_replay h seq (suc n) ≡ v ∷ collect_replay h (seq + 1) n
unfolding collect_replay
collect_some h seq n v e = ground arith

-- The replay is the longest contiguous run of the history from `seq` on, within `n` operations: its
-- i-th entry is the operation filed under `seq + i`, and it stops short of `n` entries only where
-- the history lacks the next sequence.
pub collect_replay-run :
    (h : History) (seq n : ℕ)
    → let run = collect_replay h seq n in
      ((i : ℕ) → i < length run → lookup (seq + i) h ≡ get_elem? run i)
      × (length run ≤ n)
      × ((length run < n) → lookup (seq + length run) h ≡ none)
collect_replay-run h seq zero =
    unfold collect_replay in (λ i p. absurd (omega arith), omega arith, λ p. absurd (omega arith))
collect_replay-run h seq (suc n) = elim (Option-cases (lookup seq h)) [
  | inl e ↦
      rw (collect_none h seq (suc n) e)
        (λ i p. absurd (omega arith), omega arith, λ _. rw add-zero e)
  | inr (v, e) ↦
      let (a, b, c) = collect_replay-run h (seq + 1) n in
      rw (collect_some h seq n v e) (
        entries h seq v e (collect_replay h (seq + 1) n) a,
        omega arith,
        λ p. rw (add-suc, ← suc-add, ← add-one) (c (omega arith)),
      )
]
  where
    entries :
        (h : History) (seq : ℕ) (v : List ℕ)
        → lookup seq h ≡ some v
        → (run : List (List ℕ))
        → ((i : ℕ) → i < length run → lookup (seq + 1 + i) h ≡ get_elem? run i)
        → (i : ℕ) → i < length (v ∷ run)
        → lookup (seq + i) h ≡ get_elem? (v ∷ run) i
    entries h seq v e run a zero p = rw add-zero e
    entries h seq v e run a (suc i) p = rw (add-suc, ← suc-add, ← add-one) (a i (omega arith))

-- A request that starts before or after the history sends nothing, and leaves the history, the
-- counters and the cooldown: there is no completion for operations that are gone.
pub resend_unavailable :
    (env : Env) (c : Client) (req : NackRange)
    → lookup (extend_operation_sequence req.from c.op_seq) c.history ≡ none
    → let r = resend env c req in
      (r.0 ≡ false)
      × (r.1.sent ≡ c.sent)
      × (r.1.packet_seq ≡ c.packet_seq)
      × (r.1.op_seq ≡ c.op_seq)
      × (r.1.history ≡ c.history)
      × (r.1.nack_cooldown_until ≡ c.nack_cooldown_until)
unfolding resend replay_range send_replay log_missing_nack
resend_unavailable env c req e =
    let from = extend_operation_sequence req.from c.op_seq in
    let last = min (extended_to c.op_seq req.from req.to) c.op_seq in
    ground (arith, collect_none c.history from (last - from + 1))

and_inl : {A B : Type 0} (r : A ⊎ B) → (B → ⊥) → A
and_inl (inl a) h = a
and_inl (inr b) h = absurd (h b)

send_packet_ok :
    (env : Env) (c : Client) (p : List ℕ)
    → ((i : ℕ) → env.write_ok i ≡ true)
    → (seq : ℕ) × ((send_packet env c p).0 ≡ none)
      × ((send_packet env c p).1.sent ≡ c.sent ++ (datagram seq p ∷ []))
send_packet_ok env c p ok =
    let one : (send_packet env c p).0 ≡ none =
      unfold send_packet in ground (arith, ok (pace_packet env c).writes) in
    let (e, s) = and_inl (send_packet_cases env c p).1 (λ q. cc (one, q.0)) in
    (u16 (c.packet_seq + 1), one, s)

-- With a socket that takes every datagram, a replay of at least one operation sends the operations
-- in order, packed into datagrams as whole operations, and then one datagram with the completion
-- that acknowledges the requested end. The breaker does not fire.
pub send_replay_lem :
    (env : Env) (c : Client) (requested_to : ℕ) (encoded : List ℕ) (replay : List (List ℕ))
    → ((i : ℕ) → env.write_ok i ≡ true)
    → All (λ b. (0 < length b) × (length b ≤ 1432)) (encoded ∷ replay)
    → let r = send_replay env c requested_to (encoded ∷ replay) in
      (gs : List (List (List ℕ))) × (seq : ℕ) × (flatten gs ≡ encoded ∷ replay)
      × (r.0 ≡ false)
      × (r.1.sent
          ≡ (c.sent ++ datagrams c.packet_seq (payloads gs))
            ++ (datagram seq (completion c.op_seq requested_to) ∷ []))
unfolding send_replay log_resend send_resend_completion
send_replay_lem env c requested_to encoded replay ok fit =
    let ops = encoded ∷ replay in
    let r = send_operations env c [] ops in
    let done = send_operations-none env c [] ops ok in
    let (_, s) = and_inl (send_operations-Delivery env c [] ops) (λ q. cc (done, q.0)) in
    let (seq, e, t) = send_packet_ok env r.1 (completion r.1.op_seq requested_to) ok in
    (
      groups [] ops,
      seq,
      flatten-groups [] ops (All-map (λ b p. p.0) ops fit) (λ _. refl),
      ground (arith, done, e),
      ground (arith, done, e, t, s, (send_operations_keeps env c [] ops).0),
    )
