-- ===== src/Display/Resend/Bursts.antt =====
-- The storm breaker over the requests of one burst (recordResendLocked, called for each replay).
use sun_ray2server.Prelude.{
  ℕ, ◌+◌, ◌≤◌, ◌<◌, ◌≡◌, ◌⊎◌, Bool, true, false, List, [], ◌∷◌, none, some, length, arith, All,
  Bool-cases, inl, inr,
}
use sun_ray2server.Display.Client.{Client}
use sun_ray2server.Display.Resend.{record_resend, expired, resend_storm_window}
use sun_ray2server.Display.Resend.Storm.{IsCalm, record_resend_lem}

-- The requests of a burst, each with its time and its operations, recorded until the breaker fires.
unfoldable pub record_all : Client → List (ℕ × ℕ) → Bool × Client
record_all c [] = (false, c)
record_all c (r ∷ rs) =
    let s = record_resend c r.0 r.1 in elim s.0 [ true ↦ s | false ↦ record_all s.1 rs ]

abbrev pub total_ops : List (ℕ × ℕ) → ℕ
total_ops [] = 0
total_ops (r ∷ rs) = r.1 + total_ops rs

-- Not later than two seconds behind `t`.
abbrev pub InWindow : ℕ → ℕ × ℕ → Type 0
InWindow t r = (t ≤ r.0) × (r.0 ≤ t + 2000000000)

-- The window of time `t` has counted `count` requests and `ops` operations, and nothing else changed.
abbrev pub Counted : ℕ → ℕ → ℕ → Client → Client → Type 0
Counted t count ops c c' =
    (c'.resend_window_start ≡ some t)
    × (c'.resend_window_count ≡ count)
    × (c'.resend_window_ops ≡ ops)
    × (c'.history ≡ c.history)
    × (c'.nack_cooldown_until ≡ c.nack_cooldown_until)

-- The breaker has fired at some time of the window of time `t`.
abbrev pub Fired : ℕ → Client → Type 0
Fired t c' =
    (c'.history ≡ [])
    × (c'.resend_window_start ≡ none)
    × (c'.resend_window_count ≡ 0)
    × (c'.resend_window_ops ≡ 0)
    × (t + 2000000000 ≤ c'.nack_cooldown_until)
    × (c'.nack_cooldown_until ≤ t + 4000000000)

abbrev pub Outcome : ℕ → ℕ → ℕ → Client → Bool × Client → Type 0
Outcome t count ops c r =
    ((count < 64) × (ops < 4096) × (r.0 ≡ false) × Counted t count ops c r.1)
    ⊎ (((64 ≤ count) ⊎ (4096 ≤ ops)) × (r.0 ≡ true) × Fired t r.1)

module _ (c : Client) (r : ℕ × ℕ) (rs : List (ℕ × ℕ)) where
  record_all_stops :
      (record_resend c r.0 r.1).0 ≡ true → record_all c (r ∷ rs) ≡ record_resend c r.0 r.1
  unfolding record_all
  record_all_stops e = ground arith

  record_all_goes_on :
      (record_resend c r.0 r.1).0 ≡ false
      → record_all c (r ∷ rs) ≡ record_all (record_resend c r.0 r.1).1 rs
  unfolding record_all
  record_all_goes_on e = ground arith

record_all_counted :
    (c : Client) (t : ℕ) (rs : List (ℕ × ℕ))
    → c.resend_window_start ≡ some t
    → IsCalm c
    → All (InWindow t) rs
    → Outcome t
        (c.resend_window_count + length rs)
        (c.resend_window_ops + total_ops rs)
        c
        (record_all c rs)
unfolding record_all
record_all_counted c t [] s calm w = ground arith
record_all_counted c t (r ∷ rs) s calm (w, ws) =
    let x = record_resend c r.0 r.1 in
    let l = record_resend_lem c r.0 r.1 in
    elim (Bool-cases x.0) [
      | inl e ↦ rw (record_all_stops c r rs e) (ground (arith, l, s))
      | inr e ↦
          let ih = record_all_counted x.1 t rs (ground (arith, l, s)) l.0 ws in
          rw (record_all_goes_on c r rs e) (ground (arith, l, ih, s))
    ]

-- A burst of requests, recorded until the breaker fires: the first, at time t, begins a window,
-- and the others come at t or up to two seconds later. If they are fewer than 64 and have fewer
-- than 4096 operations in all, the breaker does not fire, the window of time t has counted them
-- all, and the history and the cooldown stay. With 64 requests or more, or 4096 operations or
-- more, it fires: the history is empty, there is no window, both counts are 0, and NACKs are
-- ignored until a time two to four seconds behind t.
pub record_all_lem :
    (c : Client) (t ops : ℕ) (rs : List (ℕ × ℕ))
    → expired c.resend_window_start t resend_storm_window ≡ true
    → All (InWindow t) rs
    → Outcome t (1 + length rs) (ops + total_ops rs) c (record_all c ((t, ops) ∷ rs))
record_all_lem c t ops rs e ws =
    let x = record_resend c t ops in
    let l = record_resend_lem c t ops in
    elim (Bool-cases x.0) [
      | inl f ↦ rw (record_all_stops c (t, ops) rs f) (ground (arith, l, e))
      | inr f ↦
          let ih = record_all_counted x.1 t rs (ground (arith, l, e)) l.0 ws in
          rw (record_all_goes_on c (t, ops) rs f) (ground (arith, l, ih, e))
    ]
