-- ===== src/Display/Resend/Queue.antt =====
-- The request channel while the resend loop is busy: a sequence of NACKs.
use sun_ray2server.Prelude.{
  ℕ, ◌+◌, ◌≤◌, ◌<◌, ◌≡◌, ◌⊎◌, refl, ap, ◌∙◌, true, false, List, [], ◌∷◌, ◌++◌, Option, some, length,
  arith, Bool-cases, inl, inr, ltb,
}
use sun_ray2server.Display.Sequence.{valid_nack_range}
use sun_ray2server.Display.Client.{Env, Client, NackRange, now}
use sun_ray2server.Display.Resend.{queue_resend}

-- The NACKs of packets that arrive one after another.
unfoldable pub queue_all : Env → Client → List NackRange → Client
queue_all env c [] = c
queue_all env c (req ∷ reqs) = queue_all env (queue_resend env c req) reqs

-- The NACK that is judged at the `i`-th reading of the clock, with NACKs ignored until `until`.
abbrev pub Refused : Env → ℕ → ℕ → NackRange → Type 0
Refused env until i req = (env.clock i < until) ⊎ (valid_nack_range req.from req.to ≡ false)

abbrev pub Accepted : Env → ℕ → ℕ → NackRange → Type 0
Accepted env until i req = (until ≤ env.clock i) × (valid_nack_range req.from req.to ≡ true)

abbrev pub AllRefused : Env → ℕ → ℕ → List NackRange → Type 0
AllRefused env until i [] = Unit {0}
AllRefused env until i (req ∷ reqs) = Refused env until i req × AllRefused env until (i + 1) reqs

-- The client with `waiting` in the channel, `n` clock readings later; nothing else changes.
abbrev pub waiting_after : Client → ℕ → Option NackRange → Client
waiting_after c n waiting = record c { clock_reads = c.clock_reads + n; nack_requests = waiting }

queue_ignored :
    (env : Env) (c : Client) (req : NackRange)
    → Refused env c.nack_cooldown_until c.clock_reads req
    → queue_resend env c req ≡ waiting_after c 1 c.nack_requests
unfolding queue_resend
queue_ignored env c req h = ground arith

queue_taken :
    (env : Env) (c : Client) (req : NackRange)
    → Accepted env c.nack_cooldown_until c.clock_reads req
    → queue_resend env c req ≡ waiting_after c 1 (some req)
unfolding queue_resend
queue_taken env c req h = ground arith

waiting_after_add :
    (c : Client) (m n k : ℕ) (v w : Option NackRange)
    → m + n ≡ k
    → waiting_after (waiting_after c m v) n w ≡ waiting_after c k w
waiting_after_add c m n k v w e =
    ap (λ (reads : ℕ). record c { clock_reads = reads; nack_requests = w }) (omega arith)

queue_resend_keeps :
    (env : Env) (c : Client) (req : NackRange)
    → (v : Option NackRange) × (queue_resend env c req ≡ waiting_after c 1 v)
queue_resend_keeps env c req = elim (Bool-cases (ltb (now env c) c.nack_cooldown_until)) [
  | inl e ↦ (c.nack_requests, queue_ignored env c req (ground arith))
  | inr e ↦ elim (Bool-cases (valid_nack_range req.from req.to)) [
    | inl v ↦ (some req, queue_taken env c req (ground arith))
    | inr v ↦ (c.nack_requests, queue_ignored env c req (ground arith))
  ]
]

queue_all_keeps :
    (env : Env) (c : Client) (reqs : List NackRange)
    → (v : Option NackRange) × (queue_all env c reqs ≡ waiting_after c (length reqs) v)
unfolding queue_all
queue_all_keeps env c [] = (c.nack_requests, ground arith)
queue_all_keeps env c (req ∷ reqs) =
    let (v, e) = queue_resend_keeps env c req in
    let (w, k) = queue_all_keeps env (waiting_after c 1 v) reqs in
    (w, rw e (k ∙ waiting_after_add c 1 (length reqs) (length (req ∷ reqs)) v w (omega arith)))

queue_all_ignored :
    (env : Env) (c : Client) (reqs : List NackRange)
    → AllRefused env c.nack_cooldown_until c.clock_reads reqs
    → queue_all env c reqs ≡ waiting_after c (length reqs) c.nack_requests
unfolding queue_all
queue_all_ignored env c [] h = ground arith
queue_all_ignored env c (req ∷ reqs) (h, hs) =
    let v = c.nack_requests in
    rw (queue_ignored env c req h) (
      queue_all_ignored env (waiting_after c 1 v) reqs hs
      ∙ waiting_after_add c 1 (length reqs) (length (req ∷ reqs)) v v (omega arith))

queue_all-append :
    (env : Env) (c : Client) (xs ys : List NackRange)
    → queue_all env c (xs ++ ys) ≡ queue_all env (queue_all env c xs) ys
unfolding queue_all
queue_all-append env c [] ys = refl
queue_all-append env c (x ∷ xs) ys = queue_all-append env (queue_resend env c x) xs ys

-- NACKs with no round of the resend loop in between: the channel keeps the newest one that has a
-- valid range and does not fall in a cooldown. Whatever came before it is replaced, and the NACKs
-- behind it, each of which falls in a cooldown or has an invalid range, do not touch it. Nothing
-- else of the client changes, but for one clock reading for each NACK.
pub queue_all_newest :
    (env : Env) (c : Client) (older : List NackRange) (req : NackRange) (later : List NackRange)
    → Accepted env c.nack_cooldown_until (c.clock_reads + length older) req
    → AllRefused env c.nack_cooldown_until (c.clock_reads + length older + 1) later
    → queue_all env c (older ++ (req ∷ later))
      ≡ waiting_after c (length older + 1 + length later) (some req)
unfolding queue_all
queue_all_newest env c older req later a r =
    let n = length older in
    let (v, e) = queue_all_keeps env c older in
    let c1 = waiting_after c n v in
    let c2 = waiting_after c1 1 (some req) in
    queue_all-append env c older (req ∷ later)
    ∙ rw e (
        rw (queue_taken env c1 req a) (
          queue_all_ignored env c2 later r
          ∙ waiting_after_add c1 1 (length later) (1 + length later) (some req) (some req)
              (omega arith)
          ∙ waiting_after_add c n (1 + length later) (n + 1 + length later) v (some req)
              (omega arith)))
