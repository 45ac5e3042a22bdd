-- ===== src/Server/Current.antt =====
-- At most one call of runSession is current for a terminal, and a call that is not stays so.
use sun_ray2server.Prelude.{
  ◌≤◌, ◌<◌, ◌≡◌, ◌≢◌, ◌⊎◌, inl, inr, sym, ap, ◌∙◌, true, false, List, [], ◌∷◌, some, length,
  All-Memᴰ, Memᴰ, Option-cases, arith,
}
use mathlib.Core.Path.{subst}
use sun_ray2server.Text.{lookup}
use sun_ray2server.Text.Laws.{insert-cases, remove-cases}
use sun_ray2server.Server.State.{Setup, ActiveDisplay, Run, World, is_current, is_current_session}
use sun_ray2server.Server.System.{System, Event, perform, perform_all, boot}
use sun_ray2server.Server.Changes.{
  Core, core, Changed, kept, cancelling, installed, entered, removed, cleared, perform-Changed,
}
use sun_ray2server.Server.Generations.{
  Behind, IsNewer, IsOrdered, IsConsistent, limit, next_generation, change-IsConsistent,
}

change_runs : (c d : Core) → Changed c d → length c.runs ≤ length d.runs
change_runs c d (next, kept n) = omega arith
change_runs c d (next, cancelling x n) = omega arith
change_runs c d (next, installed key a n cl gen) = omega arith
change_runs c d (next, entered key a b r n at en) = omega arith
change_runs c d (next, removed key) = omega arith
change_runs c d (next, cleared) = omega arith

-- The display of the call's terminal has another client or a higher generation, and no later client
-- has the call's number.
abbrev IsPassed : Run → Core → Type 0
IsPassed r c =
    (r.active.client < c.clients)
    × ((a : ActiveDisplay)
        → lookup r.key c.active ≡ some a
        → (r.active.client ≢ a.client) ⊎ (r.active.generation < a.generation))

change-IsPassed :
    (c d : Core) (r : Run)
    → Changed c d
    → length d.runs < limit
    → IsConsistent c
    → IsPassed r c
    → IsPassed r d
unfolding lookup
change-IsPassed c d r (next, kept n) h k p = p
change-IsPassed c d r (next, cancelling x n) h k p = p
change-IsPassed c d r (next, installed key a n cl gen) h k (l, p) = (
  ground (arith, l),
  λ w e. elim (insert-cases key r.key a w c.active e) [
    | inl (same, eq) ↦ inl (ground (arith, ap (λ x. x.client) eq, l, cl))
    | inr (other, at) ↦ p w at
  ],
)
change-IsPassed c d r (next, entered key a b q n at en) h (es, cs, o) (l, p) = (
  l,
  λ w e. elim (insert-cases key r.key b w c.active e) [
    | inl (same, eq) ↦ ground (
      arith,
      en,
      p a (subst (λ k. lookup k c.active ≡ some a) same at),
      next_generation a.generation (length c.runs) (es key a at).1 h,
      ap (λ x. x.client) eq,
      ap (λ x. x.generation) eq,
    )
    | inr (other, at) ↦ p w at
  ],
)
change-IsPassed c d r (next, removed key) h k (l, p) =
    (l, λ w e. p w (remove-cases key r.key w c.active e).1)
change-IsPassed c d r (next, cleared) h k (l, p) = (l, λ w e. absurd (ground (arith, e)))

module _ (s : Setup) where
  perform_all_runs :
      (es : List Event) (sys : System)
      → length sys.world.runs ≤ length (perform_all s es sys).world.runs
  perform_all_runs [] sys = omega arith
  perform_all_runs (e ∷ es) sys = omega (
    arith,
    change_runs (core sys.world) (core (perform s e sys).world) (perform-Changed s sys e),
    perform_all_runs es (perform s e sys),
  )

  module _ (e : Event) (es : List Event) (sys : System)
      (h : length (perform_all s (e ∷ es) sys).world.runs < limit) where
    pub step_limit : length (perform s e sys).world.runs < limit
    step_limit = omega (arith, h, perform_all_runs es (perform s e sys))

  pub perform_all-IsConsistent :
      (es : List Event) (sys : System)
      → length (perform_all s es sys).world.runs < limit
      → IsConsistent (core sys.world)
      → IsConsistent (core (perform_all s es sys).world)
  perform_all-IsConsistent [] sys h k = k
  perform_all-IsConsistent (e ∷ es) sys h k = perform_all-IsConsistent es (perform s e sys) h (
      change-IsConsistent (core sys.world) (core (perform s e sys).world) (perform-Changed s sys e)
        (step_limit e es sys h) k)

  perform_all-IsPassed :
      (es : List Event) (sys : System) (r : Run)
      → length (perform_all s es sys).world.runs < limit
      → IsConsistent (core sys.world)
      → IsPassed r (core sys.world)
      → IsPassed r (core (perform_all s es sys).world)
  perform_all-IsPassed [] sys r h k p = p
  perform_all-IsPassed (e ∷ es) sys r h k p =
      let d = core (perform s e sys).world in
      let l = step_limit e es sys h in
      perform_all-IsPassed es (perform s e sys) r h
        (change-IsConsistent (core sys.world) d (perform-Changed s sys e) l k)
        (change-IsPassed (core sys.world) d r (perform-Changed s sys e) l k p)

  pub boot-IsConsistent : IsConsistent (core boot.world)
  unfolding lookup
  boot-IsConsistent = (λ k a e. absurd (ground (arith, e)), tt, tt)

module _ (w : World) (r : Run) where
  passed_stale : IsPassed r (core w) → is_current w r ≡ false
  unfolding is_current_session
  passed_stale (l, p) = elim (Option-cases (lookup r.key w.active)) [
    | inl e ↦ ground (arith, e)
    | inr (a, e) ↦ ground (arith, e, p a e)
  ]

  stale-IsPassed :
      IsConsistent (core w) → Memᴰ r w.runs → is_current w r ≡ false → IsPassed r (core w)
  unfolding is_current_session
  stale-IsPassed (es, cs, o) m h = (
    All-Memᴰ (λ r. r.active.client < w.next_client) r w.runs cs m,
    λ a e. ground (arith, e, h, All-Memᴰ (λ q. Behind r.key a q) r w.runs (es r.key a e).2 m),
  )

-- A call of runSession that is not current for its terminal is not current after any later events,
-- whatever order the goroutines take turns in, as long as the server makes fewer than 2 ^ 64 calls.
pub stale_for_good :
    (s : Setup) (es later : List Event) (r : Run)
    → length (perform_all s later (perform_all s es boot)).world.runs < limit
    → Memᴰ r (perform_all s es boot).world.runs
    → is_current (perform_all s es boot).world r ≡ false
    → is_current (perform_all s later (perform_all s es boot)).world r ≡ false
stale_for_good s es later r h m e =
    let sys = perform_all s es boot in
    let k =
      perform_all-IsConsistent s es boot (omega (arith, h, perform_all_runs s later sys))
        (boot-IsConsistent s) in
    passed_stale (perform_all s later sys).world r
      (perform_all-IsPassed s later sys r h k (stale-IsPassed sys.world r k m e))

-- Two members of a list of calls are the same or one is newer.
ordered-cases :
    (runs : List Run) (q r : Run)
    → IsOrdered runs
    → Memᴰ q runs
    → Memᴰ r runs
    → (q ≡ r) ⊎ IsNewer q r ⊎ IsNewer r q
ordered-cases [] q r o m n = elim m [ ]
ordered-cases (x ∷ xs) q r (p, o) (Memᴰ.head a) (Memᴰ.head b) = inl (a ∙ sym b)
ordered-cases (x ∷ xs) q r (p, o) (Memᴰ.head a) (Memᴰ.tail n) =
    inr (inl (subst (λ y. IsNewer y r) (sym a) (All-Memᴰ (λ y. IsNewer x y) r xs p n)))
ordered-cases (x ∷ xs) q r (p, o) (Memᴰ.tail m) (Memᴰ.head b) =
    inr (inr (subst (λ y. IsNewer y q) (sym b) (All-Memᴰ (λ y. IsNewer x y) q xs p m)))
ordered-cases (x ∷ xs) q r (p, o) (Memᴰ.tail m) (Memᴰ.tail n) = ordered-cases xs q r o m n

current_newer :
    (w : World) (q r : Run)
    → q.key ≡ r.key
    → is_current w q ≡ true
    → is_current w r ≡ true
    → IsNewer q r
    → ⊥
unfolding is_current_session
current_newer w q r e hq hr n = elim (Option-cases (lookup r.key w.active)) [
  | inl none_there ↦ ground (arith, hr, none_there)
  | inr (a, at) ↦
      ground (arith, n, hr, hq, at, e, subst (λ k. lookup k w.active ≡ some a) (sym e) at)
]

-- After any events at most one call of runSession is current for a terminal, as long as the server
-- makes fewer than 2 ^ 64 calls.
pub one_current :
    (s : Setup) (es : List Event) (q r : Run)
    → length (perform_all s es boot).world.runs < limit
    → Memᴰ q (perform_all s es boot).world.runs
    → Memᴰ r (perform_all s es boot).world.runs
    → q.key ≡ r.key
    → is_current (perform_all s es boot).world q ≡ true
    → is_current (perform_all s es boot).world r ≡ true
    → q ≡ r
one_current s es q r h m n e hq hr =
    let w = (perform_all s es boot).world in
    let k = perform_all-IsConsistent s es boot h (boot-IsConsistent s) in
    elim (ordered-cases w.runs q r k.2 m n) [
      | inl same ↦ same
      | inr (inl newer) ↦ absurd (current_newer w q r e hq hr newer)
      | inr (inr newer) ↦ absurd (current_newer w r q (sym e) hr hq newer)
    ]
