-- ===== src/Config/Routes.antt =====
-- What a validated configuration says about routing.
use mathlib.Core.Path.{subst}
use sun_ray2server.Prelude.{
  ◌≡◌, inl, inr, refl, sym, Bool, true, false, List, [], ◌∷◌, Option, none, some, All, Option-cases,
  arith,
}
use sun_ray2server.Text.{Text, Unicode, is_empty, lookup}
use sun_ray2server.Text.Laws.{lookup-All, find_fold-All}
use sun_ray2server.Config.{
  Config, Session, Route, lookup_fold, terminal_card, terminal_state, non_empty, or_else, resolve,
}
use sun_ray2server.Config.Validation.{
  Net, is_unknown, is_dangling, validate_cards, validate_route, validate_terminals, validate,
}

-- The session of this name exists.
abbrev pub IsKnown : List (Text × Session) → Text → Type 0
IsKnown sessions name = (s : Session) × (lookup name sessions ≡ some s)

abbrev Good : List (Text × Session) → Option Text → Type 0
Good sessions none = Unit {0}
Good sessions (some name) = IsKnown sessions name

abbrev IsFound : List (Text × Session) → Option Text → Type 0
IsFound sessions o = (name : Text) × (o ≡ some name) × IsKnown sessions name

-- The names in a route are names of sessions.
abbrev IsRouted : List (Text × Session) → Route → Type 0
IsRouted sessions r =
    Good sessions (non_empty r.no_card)
    × Good sessions (non_empty r.card_present)
    × All (λ e. IsKnown sessions e.1) r.cards

module _ (sessions : List (Text × Session)) where
  is_unknown-IsKnown : (name : Text) → is_unknown sessions name ≡ false → IsKnown sessions name
  is_unknown-IsKnown name h = elim (Option-cases (lookup name sessions)) [
    | inl e ↦ absurd (ground (arith, e, h))
    | inr (s, e) ↦ (s, e)
  ]

  dangling-Good : (name : Text) → is_dangling sessions name ≡ false → Good sessions (non_empty name)
  dangling-Good [] h = tt
  dangling-Good (c ∷ s) h = is_unknown-IsKnown (c ∷ s) (ground (arith, h))

  or_else-Good :
      (a b : Option Text) → Good sessions a → Good sessions b → Good sessions (or_else a b)
  or_else-Good (some n) b g h = g
  or_else-Good none b g h = h

  or_else-IsFound :
      (a b : Option Text) → Good sessions a → IsFound sessions b → IsFound sessions (or_else a b)
  or_else-IsFound (some n) b g h = (n, refl, g)
  or_else-IsFound none b g h = h

  non_empty-IsFound :
      (name : Text)
      → is_empty name ≡ false
      → Good sessions (non_empty name)
      → IsFound sessions (non_empty name)
  non_empty-IsFound [] e g = absurd (ground (arith, e))
  non_empty-IsFound (c ∷ s) e g = (c ∷ s, refl, g)

  module _ (u : Unicode) where
    validate_cards-All :
        (cards : List (Text × Text))
        → validate_cards u sessions cards ≡ none
        → All (λ e. IsKnown sessions e.1) cards
    unfolding validate_cards
    validate_cards-All [] h = tt
    validate_cards-All ((card, name) ∷ rest) h =
        (is_unknown-IsKnown name (ground (arith, h)), validate_cards-All rest (ground (arith, h)))

    validate_route-IsRouted : (r : Route) → validate_route u sessions r ≡ none → IsRouted sessions r
    unfolding validate_route
    validate_route-IsRouted r h = (
      dangling-Good r.no_card (ground (arith, h)),
      dangling-Good r.card_present (ground (arith, h)),
      validate_cards-All r.cards (ground (arith, h)),
    )

    validate_terminals-All :
        (terminals : List (Text × Route))
        → validate_terminals u sessions terminals ≡ none
        → All (λ e. IsRouted sessions e.1) terminals
    unfolding validate_terminals
    validate_terminals-All [] h = tt
    validate_terminals-All ((serial, r) ∷ rest) h = (
      validate_route-IsRouted r (ground (arith, h)),
      validate_terminals-All rest (ground (arith, h)),
    )

    lookup_fold-All :
        {V : Type 0} (P : V → Type 0) (values : List (Text × V)) (key : Text) (v : V)
        → All (λ e. P e.1) values
        → lookup_fold u values key ≡ some v
        → P v
    unfolding lookup_fold
    lookup_fold-All P values key v a e = elim (Option-cases (lookup key values)) [
      | inl miss ↦ find_fold-All P u key values v a (ground (arith, e, miss))
      | inr (w, hit) ↦ subst P (ground (arith, e, hit)) (lookup-All P key values w a hit)
    ]

    lookup_card-Good :
        (cards : List (Text × Text)) (card : Text)
        → All (λ e. IsKnown sessions e.1) cards
        → Good sessions (lookup_fold u cards card)
    lookup_card-Good cards card a = elim (Option-cases (lookup_fold u cards card)) [
      | inl e ↦ subst (Good sessions) (sym e) tt
      | inr (name, e) ↦
          subst (Good sessions) (sym e)
            (lookup_fold-All (λ n. IsKnown sessions n) cards card name a e)
    ]

    abbrev IsTerminal : Option Route → Type 0
    IsTerminal none = Unit {0}
    IsTerminal (some r) = IsRouted sessions r

    lookup_route-IsTerminal :
        (terminals : List (Text × Route)) (serial : Text)
        → All (λ e. IsRouted sessions e.1) terminals
        → IsTerminal (lookup_fold u terminals serial)
    lookup_route-IsTerminal terminals serial a =
        elim (Option-cases (lookup_fold u terminals serial)) [
          | inl e ↦ subst IsTerminal (sym e) tt
          | inr (r, e) ↦
              subst IsTerminal (sym e)
                (lookup_fold-All (λ t. IsRouted sessions t) terminals serial r a e)
        ]

    terminal-Good :
        (t : Option Route) (card : Text)
        → IsTerminal t
        → Good sessions (terminal_card u t card)
          × Good sessions (terminal_state t true)
          × Good sessions (terminal_state t false)
    terminal-Good none card g = (tt, tt, tt)
    terminal-Good (some r) card (a, b, cards) = (lookup_card-Good r.cards card cards, b, a)

-- In a configuration that Validate accepts, every terminal and every card, present or not, is routed
-- to a session, and the configuration defines that session.
pub resolve-validate :
    (u : Unicode) (net : Net) (c : Config) (serial card : Text) (present : Bool)
    → validate u net c ≡ none
    → (name : Text) × (resolve u c serial card present ≡ some name) × IsKnown c.sessions name
unfolding validate resolve
resolve-validate u net c serial card present h =
    let routed = validate_route-IsRouted c.sessions u c.routing.default (ground (arith, h)) in
    let terminals = validate_terminals-All c.sessions u c.routing.terminals (ground (arith, h)) in
    let full : (is_empty c.routing.default.no_card ≡ false)
        × (is_empty c.routing.default.card_present ≡ false) =
      ground (arith, h) in
    let r = lookup_fold u c.routing.terminals serial in
    let (own, with_card, without) =
      terminal-Good c.sessions u r card
        (lookup_route-IsTerminal c.sessions u c.routing.terminals serial terminals) in
    elim present as (λ b. IsFound c.sessions (resolve u c serial card b)) [
      | true ↦
          or_else-IsFound c.sessions (terminal_card u r card)
            (or_else (lookup_fold u c.routing.default.cards card)
              (or_else (terminal_state r true) (non_empty c.routing.default.card_present)))
            own
            (or_else-IsFound c.sessions (lookup_fold u c.routing.default.cards card)
              (or_else (terminal_state r true) (non_empty c.routing.default.card_present))
              (lookup_card-Good c.sessions u c.routing.default.cards card routed.2)
              (or_else-IsFound c.sessions (terminal_state r true)
                (non_empty c.routing.default.card_present) with_card
                (non_empty-IsFound c.sessions c.routing.default.card_present full.1 routed.1)))
      | false ↦
          or_else-IsFound c.sessions (terminal_state r false) (non_empty c.routing.default.no_card)
            without (non_empty-IsFound c.sessions c.routing.default.no_card full.0 routed.0)
    ]
