-- ===== src/Server/Cancelling.antt =====
-- Every call of runSession that is not current is cancelled, or about to be.
use sun_ray2server.Prelude.{
  ℕ, ◌<◌, ◌≡◌, ◌⊎◌, inl, inr, refl, sym, ap, ◌∙◌, true, false, List, [], ◌∷◌, ◌++◌, Option, none,
  some, length, get_elem?, set, All-Memᴰ, Memᴰ, Bool-cases, arith,
}
use mathlib.Core.Path.{subst}
use mathlib.Core.List.{append-nil}
use sun_ray2server.Text.{Text, same, lookup, insert}
use sun_ray2server.Text.Laws.{same_iff, lookup-insert, lookup-remove}
use sun_ray2server.Server.State.{
  Setup, ActiveDisplay, Run, World, Action, Io, cancel, shut, shut_all, is_current,
  is_current_session,
}
use sun_ray2server.Server.Displays.{with_cancelled}
use sun_ray2server.Server.System.{
  System, Event, accept, turn, stop, exec, perform, perform_all, take_turn, boot,
}
use sun_ray2server.Server.Changes.{
  Core, core, Change, kept, cancelling, installed, entered, removed, cleared, exec-Change,
  perform-Changed,
}
use sun_ray2server.Server.Generations.{Behind, IsConsistent, limit, change-IsConsistent}
use sun_ray2server.Server.Current.{boot-IsConsistent, step_limit}
use sun_ray2server.Server.Pending.{
  IsDue, member_left, member_right, Somewhere-append, Somewhere-next, perform-IsDue,
}

-- The call is for the display that its terminal has.
abbrev IsCurrent : Core → Run → Type 0
IsCurrent c r =
    (a : ActiveDisplay) × (lookup r.key c.active ≡ some a)
    × (a.client ≡ r.active.client)
    × (a.generation ≡ r.active.generation)

current_lem : (w : World) (r : Run) → IsCurrent (core w) r → is_current w r ≡ true
unfolding is_current_session
current_lem w r (a, e, cl, gen) = ground (arith, e, cl, gen)

shut_cancels : (a : ActiveDisplay) (c : ℕ) → a.context ≡ c → Memᴰ (cancel c) (shut (some a))
shut_cancels a c e = member_right (cancel c) _ _ (Memᴰ.head (sym (ap (λ x. cancel x) e)))

shut_all_cancels :
    (k : Text) (m : List (Text × ActiveDisplay)) (a : ActiveDisplay) (c : ℕ)
    → lookup k m ≡ some a
    → a.context ≡ c
    → Memᴰ (cancel c) (shut_all m)
unfolding lookup
shut_all_cancels k [] a c e x = absurd (ground (arith, e))
shut_all_cancels k ((j, b) ∷ m) a c e x = elim (Bool-cases (same j k)) [
  | inl t ↦ member_left (cancel c) (shut (some b)) _ (shut_cancels b c (ground (arith, e, t, x)))
  | inr f ↦
      member_right (cancel c) (shut (some b)) _ (shut_all_cancels k m a c (ground (arith, e, f)) x)
]

-- What becomes of a call: it stays current, its display is about to be cancelled, or it is cancelled.
abbrev Fate : Core → List Action → Run → Type 0
Fate d next r = IsCurrent d r ⊎ Memᴰ (cancel r.active.context) next ⊎ Memᴰ r.context d.cancelled

module _ (c : Core) (r : Run) (k : IsConsistent c) (m : Memᴰ r c.runs) where
  current_contexts :
      (a : ActiveDisplay)
      → lookup r.key c.active ≡ some a
      → a.client ≡ r.active.client
      → a.generation ≡ r.active.generation
      → (a.session_context ≡ some r.context) × (a.context ≡ r.active.context)
  current_contexts a e cl gen =
      ground (arith, cl, gen, All-Memᴰ (λ q. Behind r.key a q) r c.runs (k.0 r.key a e).2 m)

  -- The display of the terminal `key` is gone or replaced.
  gone :
      (key : Text) (d : Core) (next : List Action) (cur : IsCurrent c r)
      → ((same key r.key ≡ false) → lookup r.key d.active ≡ lookup r.key c.active)
      → Fate d (shut (lookup key c.active) ++ next) r
  gone key d next (a, e, cl, gen) other = elim (Bool-cases (same key r.key)) [
    | inl t ↦ inr (
        inl (
          member_left (cancel r.active.context) (shut (lookup key c.active)) next (
            subst (λ o. Memᴰ (cancel r.active.context) (shut o))
              (sym (subst (λ x. lookup x c.active ≡ some a) (sym ((same_iff key r.key).0 t)) e))
              (shut_cancels a r.active.context (current_contexts a e cl gen).1))))
    | inr f ↦ inl (a, other f ∙ e, cl, gen)
  ]

  Change-Fate : (d : Core) (next : List Action) → Change c d next → IsCurrent c r → Fate d next r
  Change-Fate d next (kept n) cur = inl cur
  Change-Fate d next (cancelling x n) cur = inl cur
  Change-Fate d next (installed key a n cl gen) cur =
      gone key d n cur (λ f. ground (arith, f, lookup-insert key r.key a c.active))
  Change-Fate d next (entered key a b q n at en) (old, e, cl, gen) =
      elim (Bool-cases (same key r.key)) [
        | inl t ↦
            let here : some a ≡ some old =
              sym at
              ∙ subst (λ x. lookup x c.active ≡ some old) (sym ((same_iff key r.key).0 t)) e in
            let same_display : a ≡ old = cc in
            let own : a.session_context ≡ some r.context =
              ap (λ x. x.session_context) same_display ∙ (current_contexts old e cl gen).0 in
            inr (
              inr (
                subst (λ o. Memᴰ r.context (with_cancelled o c.cancelled)) (sym own)
                  (Memᴰ.head refl)))
        | inr f ↦ inl (old, ground (arith, f, e, lookup-insert key r.key b c.active), cl, gen)
      ]
  Change-Fate d next (removed key) cur =
      subst (λ n. Fate d n r) (append-nil (shut (lookup key c.active)))
        (gone key d [] cur (λ f. ground (arith, f, lookup-remove key r.key c.active)))
  Change-Fate d next cleared (a, e, cl, gen) =
      inr
        (inl (shut_all_cancels r.key c.active a r.active.context e (current_contexts a e cl gen).1))

-- A call after a change is an earlier one or current.
Change-runs :
    (c d : Core) (next : List Action) (r : Run)
    → Change c d next
    → Memᴰ r d.runs
    → Memᴰ r c.runs ⊎ IsCurrent d r
Change-runs c d next r (kept n) m = inl m
Change-runs c d next r (cancelling x n) m = inl m
Change-runs c d next r (installed key a n cl gen) m = inl m
Change-runs c d next r (entered key a b q n at en) (Memᴰ.tail m) = inl m
Change-runs c d next r (entered key a b q n at en) (Memᴰ.head e) = inr (
    subst (λ x. IsCurrent d x) (sym e)
      (
        b,
        subst (λ x. lookup x (insert key b c.active) ≡ some b) (sym en.4)
            (ground (arith, lookup-insert key key b c.active, same_iff key key)),
        sym en.5,
        sym en.7,
      ))
Change-runs c d next r (removed key) m = inl m
Change-runs c d next r cleared m = inl m

abbrev IsCovered : System → Run → Type 0
IsCovered sys r = IsCurrent (core sys.world) r ⊎ IsDue sys r.context ⊎ IsDue sys r.active.context

module _ (s : Setup) (sys : System) (k : IsConsistent (core sys.world)) (r : Run) where
  -- A call that was current before a turn.
  settled-IsCovered :
      (i : ℕ) (io : Io) (a : Action) (rest : List Action)
      → get_elem? sys.goroutines i ≡ some (a ∷ rest)
      → Fate (core (exec s io a sys.world).world) (exec s io a sys.world).next r
      → IsCovered (take_turn s sys i io (some (a ∷ rest))) r
  settled-IsCovered i io a rest at (inl cur) = inl cur
  settled-IsCovered i io a rest at (inr (inl m)) =
      let o = exec s io a sys.world in
      inr (
        inr (
          inr (
            Somewhere-append (cancel r.active.context) (set sys.goroutines i (o.next ++ rest))
              (o.goroutine ∷ [])
              (Somewhere-next (cancel r.active.context) rest o.next sys.goroutines i (a ∷ rest) at
                m))))
  settled-IsCovered i io a rest at (inr (inr m)) = inr (inl (inl m))

  turned-IsCovered :
      (i : ℕ) (io : Io) (g : Option (List Action))
      → get_elem? sys.goroutines i ≡ g
      → Memᴰ r sys.world.runs
      → IsCurrent (core sys.world) r
      → IsCovered (take_turn s sys i io g) r
  turned-IsCovered i io none at m cur = inl cur
  turned-IsCovered i io (some []) at m cur = inl cur
  turned-IsCovered i io (some (a ∷ rest)) at m cur =
      let o = exec s io a sys.world in
      settled-IsCovered i io a rest at (
        Change-Fate (core sys.world) r k m (core o.world) o.next (exec-Change s sys.world io a) cur)

  current-IsCovered :
      (e : Event)
      → Memᴰ r sys.world.runs
      → IsCurrent (core sys.world) r
      → IsCovered (perform s e sys) r
  unfolding perform
  current-IsCovered (accept host lines) m cur = inl cur
  current-IsCovered (turn i io) m cur =
      turned-IsCovered i io (get_elem? sys.goroutines i) refl m cur
  current-IsCovered stop m cur = inl cur

  perform-IsCovered :
      (e : Event)
      → (Memᴰ r sys.world.runs → IsCovered sys r)
      → Memᴰ r (perform s e sys).world.runs
      → IsCovered (perform s e sys) r
  perform-IsCovered e covered m =
      let (next, change) = perform-Changed s sys e in
      elim (Change-runs (core sys.world) (core (perform s e sys).world) next r change m) [
        | inr cur ↦ inl cur
        | inl old ↦ elim (covered old) [
          | inl cur ↦ current-IsCovered e old cur
          | inr (inl due) ↦ inr (inl (perform-IsDue s sys r.context e due))
          | inr (inr due) ↦ inr (inr (perform-IsDue s sys r.active.context e due))
        ]
      ]

perform_all-IsCovered :
    (s : Setup) (es : List Event) (sys : System) (r : Run)
    → length (perform_all s es sys).world.runs < limit
    → IsConsistent (core sys.world)
    → (Memᴰ r sys.world.runs → IsCovered sys r)
    → Memᴰ r (perform_all s es sys).world.runs
    → IsCovered (perform_all s es sys) r
perform_all-IsCovered s [] sys r h k covered m = covered m
perform_all-IsCovered s (e ∷ es) sys r h k covered m =
    perform_all-IsCovered s es (perform s e sys) r h
      (change-IsConsistent (core sys.world) (core (perform s e sys).world) (perform-Changed s sys e)
        (step_limit s e es sys h) k)
      (perform-IsCovered s sys k r e covered) m

-- After any events, in any order of the goroutines' turns, each call of runSession is the current one
-- of its terminal, or its context or that of its display is cancelled or is about to be cancelled by a
-- goroutine, as long as the server makes fewer than 2 ^ 64 calls.
pub no_session_left :
    (s : Setup) (es : List Event) (r : Run)
    → length (perform_all s es boot).world.runs < limit
    → Memᴰ r (perform_all s es boot).world.runs
    → (is_current (perform_all s es boot).world r ≡ true)
      ⊎ IsDue (perform_all s es boot) r.context
      ⊎ IsDue (perform_all s es boot) r.active.context
no_session_left s es r h m =
    elim (perform_all-IsCovered s es boot r h (boot-IsConsistent s) (λ n. elim n [ ]) m) [
      | inl cur ↦ inl (current_lem (perform_all s es boot).world r cur)
      | inr due ↦ inr due
    ]
