-- ===== src/Server/Generations.antt =====
-- The calls of runSession are told apart by client and generation, and none becomes current again.
use sun_ray2server.Prelude.{
  ℕ, suc, ◌+◌, ◌%◌, ◌≤◌, ◌<◌, ◌≡◌, ◌≢◌, ◌⊎◌, inl, inr, refl, sym, ◌∙◌, List, [], ◌∷◌, some, length,
  All, All-map, arith,
}
use mathlib.Core.Path.{subst}
use sun_ray2server.Text.{Text, lookup, insert}
use sun_ray2server.Text.Laws.{insert-cases, remove-cases}
use sun_ray2server.Server.State.{ActiveDisplay, Run}
use sun_ray2server.Server.Changes.{
  Core, Changed, kept, cancelling, installed, entered, removed, cleared, Enters,
}

-- A call for another terminal or another client, an older call, or the call for the display's session.
abbrev pub Behind : Text → ActiveDisplay → Run → Type 0
Behind k a r =
    (r.key ≢ k)
    ⊎ (r.active.client ≢ a.client)
    ⊎ (r.active.generation < a.generation)
    ⊎ ((r.active.generation ≡ a.generation)
        × (a.session_context ≡ some r.context)
        × (r.active.context ≡ a.context))

abbrev pub IsEntry : ℕ → List Run → Text → ActiveDisplay → Type 0
IsEntry clients runs k a =
    (a.client < clients) × (a.generation ≤ length runs) × All (λ r. Behind k a r) runs

-- The newer call `q` is for another terminal or client than `r`, or of a higher generation.
abbrev pub IsNewer : Run → Run → Type 0
IsNewer q r =
    (r.key ≢ q.key)
    ⊎ (r.active.client ≢ q.active.client)
    ⊎ (r.active.generation < q.active.generation)

abbrev pub IsOrdered : List Run → Type 0
IsOrdered [] = Unit {0}
IsOrdered (q ∷ runs) = All (λ r. IsNewer q r) runs × IsOrdered runs

abbrev pub IsConsistent : Core → Type 0
IsConsistent c =
    ((k : Text) (a : ActiveDisplay) → lookup k c.active ≡ some a → IsEntry c.clients c.runs k a)
    × All (λ r. r.active.client < c.clients) c.runs
    × IsOrdered c.runs

abbrev pub limit : ℕ
limit = 18446744073709551616

pub next_generation : (g n : ℕ) → g ≤ n → suc n < limit → (g + 1) % limit ≡ g + 1
next_generation g n h l = omega arith

module _ (key : Text) (a b : ActiveDisplay) (r : Run) (n : ℕ) (en : Enters a b key r)
    (g : a.generation ≤ n) (h : suc n < limit) where
  entered-Behind : (q : Run) → Behind key a q → Behind key b q
  entered-Behind q bh = ground (arith, en, bh, next_generation a.generation n g h)

  entered-IsNewer : (q : Run) → Behind key a q → IsNewer r q
  entered-IsNewer q bh = ground (arith, en, bh, next_generation a.generation n g h)

  entered_generation : b.generation ≤ suc n
  entered_generation = ground (arith, en, next_generation a.generation n g h)

  newest-Behind : Behind key b r
  newest-Behind = ground (arith, en)

  -- The entries after switchSession.
  entered-IsEntry :
      (active : List (Text × ActiveDisplay)) (runs : List Run) (clients : ℕ)
      → length runs ≡ n
      → IsEntry clients runs key a
      → (k : Text) (w : ActiveDisplay) → (lookup k active ≡ some w → IsEntry clients runs k w)
      → lookup k (insert key b active) ≡ some w
      → IsEntry clients (r ∷ runs) k w
  entered-IsEntry active runs clients len (cl, gn, al) k w old e =
      elim (insert-cases key k b w active e) [
        | inl (same, eq) ↦
            subst (λ x. IsEntry clients (r ∷ runs) k x) eq
              (subst (λ x. IsEntry clients (r ∷ runs) x b) same
                (
                  ground (arith, en, cl),
                  ground (arith, len, entered_generation),
                  (newest-Behind, All-map entered-Behind runs al),
                ))
        | inr (other, at) ↦
            let (p, q, t) = old at in (p, ground (arith, q), (inl (λ x. other (sym (en.4) ∙ x)), t))
      ]

module _ (key : Text) (a : ActiveDisplay) (runs : List Run) (clients : ℕ) where
  fresh-Behind :
      a.client ≡ clients → (k : Text) (r : Run) → r.active.client < clients → Behind k a r
  fresh-Behind cl k r l = inr (inl (ground (arith, l, cl)))

  installed-IsEntry :
      (active : List (Text × ActiveDisplay)) (k : Text) (w : ActiveDisplay)
      → a.client ≡ clients
      → a.generation ≡ 0
      → All (λ r. r.active.client < clients) runs
      → (lookup k active ≡ some w → IsEntry clients runs k w)
      → lookup k (insert key a active) ≡ some w
      → IsEntry (suc clients) runs k w
  installed-IsEntry active k w cl gen cs old e = elim (insert-cases key k a w active e) [
    | inl (same, eq) ↦
        subst (λ x. IsEntry (suc clients) runs k x) eq
          (ground (arith, cl), ground (arith, gen), All-map (fresh-Behind cl k) runs cs)
    | inr (other, at) ↦ let (p, q, t) = old at in (ground (arith, p), q, t)
  ]

pub change-IsConsistent :
    (c d : Core) → Changed c d → length d.runs < limit → IsConsistent c → IsConsistent d
unfolding lookup
change-IsConsistent c d (next, kept n) h k = k
change-IsConsistent c d (next, cancelling x n) h k = k
change-IsConsistent c d (next, installed key a n cl gen) h (es, cs, o) = (
  λ k w e. installed-IsEntry key a c.runs c.clients c.active k w cl gen cs (es k w) e,
  All-map (λ r l. ground (arith, l)) c.runs cs,
  o,
)
change-IsConsistent c d (next, entered key a b r n at en) h (es, cs, o) =
    let (cl, gn, al) = es key a at in
    (
      λ k w e.
          entered-IsEntry key a b r (length c.runs) en gn h c.active c.runs c.clients refl
            (es key a at) k w (es k w) e,
      (ground (arith, en, cl), cs),
      (All-map (entered-IsNewer key a b r (length c.runs) en gn h) c.runs al, o),
    )
change-IsConsistent c d (next, removed key) h (es, cs, o) =
    (λ k a e. es k a (remove-cases key k a c.active e).1, cs, o)
change-IsConsistent c d (next, cleared) h (es, cs, o) = (λ k a e. absurd (ground (arith, e)), cs, o)
