-- ===== src/Server/Displays.antt =====
-- internal/server/server.go: selectSession, startDisplay and switchSession, between two locks each.
use sun_ray2server.Prelude.{
  ℕ, suc, ◌+◌, ◌%◌, Bool, false, ◌||◌, not, List, [], ◌∷◌, ◌++◌, Option, none, some, if◌then◌else◌,
}
use sun_ray2server.Prelude.Int.{ℤ, outside}
use sun_ray2server.Text.{Text, codes, same, lookup, insert}
use sun_ray2server.Auth.{value_of}
use sun_ray2server.Config.{Session, is_type, card_test, resolve}
use sun_ray2server.Server.Resolution.{atoi, display_size, new}
use sun_ray2server.Server.State.{
  Setup, ActiveDisplay, SessionSelection, Run, World, Action, store_selection, switch_session,
  clear_input, clear_resync, spawn, Io, done, failed, ended, Outcome, then_do, card_present,
  card_session_slot, shut,
}

-- The call of the session's CancelFunc, if there is one.
abbrev pub with_cancelled : Option ℕ → List ℕ → List ℕ
with_cancelled none cs = cs
with_cancelled (some c) cs = c ∷ cs

module _ (s : Setup) where
  abbrev pub is_card_test : Text → Bool
  is_card_test name = elim (lookup name s.config.sessions) [
    | none ↦ false
    | some d ↦ is_type d card_test
  ]

  -- The call of switchSession in selectSession.
  abbrev pub reselect : Option ActiveDisplay → Text → SessionSelection → List Action
  reselect none key chosen = []
  reselect (some a) key chosen =
      if not (same a.session chosen.session) || is_card_test chosen.session
      then switch_session key chosen ∷ []
      else []

  abbrev pub select : World → Text → SessionSelection → Outcome
  select w key chosen =
      then_do (record w { selected = insert key chosen w.selected })
        (reselect (lookup key w.active) key chosen)

  abbrev pub select_resolved : World → Text → Text → Text → Text → Text → Option Text → Outcome
  select_resolved w key slot card_type card_id event none = then_do w []
  select_resolved w key slot card_type card_id event (some name) = select w key (record {
    slot = slot;
    session = name;
    card_type = card_type;
    card_id = card_id;
    event = event;
  })

  unfoldable pub run_select_session : World → Text → Text → Text → Text → Text → Text → Outcome
  run_select_session w key serial slot card_type card_id event =
      select_resolved w key slot card_type card_id event
        (resolve s.unicode s.config serial card_id (same slot card_present))

  abbrev pub text_or_empty : Option Text → Text
  text_or_empty none = []
  text_or_empty (some t) = t

  -- The selection that startDisplay makes for a terminal without one.
  unfoldable pub first_selection : List (Text × Text) → SessionSelection
  first_selection properties =
      let property : Text → Text = λ k. value_of properties k in
      let slot : Text =
        text_or_empty (card_session_slot s.unicode (property (codes "type")) (codes "insert")) in
      record {
        slot = slot;
        session = text_or_empty (
            resolve s.unicode s.config (property (codes "sn")) (property (codes "id"))
              (same slot card_present));
        card_type = property (codes "type");
        card_id = property (codes "id");
        event = codes "insert";
      }

  abbrev pub show_selected : Option SessionSelection → Text → List (Text × Text) → List Action
  show_selected (some chosen) key properties = switch_session key chosen ∷ []
  show_selected none key properties =
      store_selection key (first_selection properties)
      ∷ switch_session key (first_selection properties)
      ∷ []

  abbrev pub new_display : World → List (Text × Text) → ActiveDisplay
  new_display w properties = record {
    client = w.next_client;
    size = display_size (new s.config.server) (value_of properties (codes "startRes"));
    context = w.next_context;
    session_context = none;
    session = [];
    generation = 0;
  }

  -- startDisplay once display.Open has returned a client.
  unfoldable pub install_display : World → Text → ℕ → ℤ → List (Text × Text) → Outcome
  install_display w key ip port properties =
      then_do
        (record w {
          active = insert key (new_display w properties) w.active;
          next_client = suc w.next_client;
          next_context = suc w.next_context;
          opened = (w.next_client, ip, port) ∷ w.opened;
        })
        (shut (lookup key w.active) ++ show_selected (lookup key w.selected) key properties)

  -- A port that is missing, malformed or out of range ends the call.
  abbrev pub start_at : World → Text → ℕ → List (Text × Text) → Option ℤ → Outcome
  start_at w key ip properties none = then_do w []
  start_at w key ip properties (some port) =
      if outside port 1 65535 then then_do w [] else install_display w key ip port properties

  unfoldable pub run_start_display : Io → World → Text → ℕ → List (Text × Text) → Outcome
  run_start_display done w key ip properties =
      start_at w key ip properties (atoi (value_of properties (codes "pn")))
  run_start_display failed w key ip properties = then_do w []
  run_start_display ended w key ip properties = then_do w []

  -- `active` after the assignments of switchSession.
  abbrev pub next_session : World → ActiveDisplay → SessionSelection → ActiveDisplay
  next_session w a chosen = record a {
    session_context = some w.next_context;
    session = chosen.session;
    generation = (a.generation + 1) % 18446744073709551616;
  }

  abbrev pub new_run : World → Text → ActiveDisplay → SessionSelection → Session → Run
  new_run w key a chosen d = record {
    context = w.next_context;
    key = key;
    active = next_session w a chosen;
    selection = chosen;
    definition = d;
  }

  -- switchSession once the session and the display are found.
  unfoldable pub enter_session : World → Text → ActiveDisplay → SessionSelection → Session → Outcome
  enter_session w key a chosen d =
      then_do
        (record w {
          active = insert key (next_session w a chosen) w.active;
          next_context = suc w.next_context;
          cancelled = with_cancelled a.session_context w.cancelled;
          runs = new_run w key a chosen d ∷ w.runs;
        })
        (clear_input a.client ∷ clear_resync a.client ∷ spawn (new_run w key a chosen d) ∷ [])

  abbrev pub switch_to :
      World → Text → SessionSelection → Option Session → Option ActiveDisplay → Outcome
  switch_to w key chosen none display = then_do w []
  switch_to w key chosen (some d) none = then_do w []
  switch_to w key chosen (some d) (some a) = enter_session w key a chosen d

  unfoldable pub run_switch_session : World → Text → SessionSelection → Outcome
  run_switch_session w key chosen =
      switch_to w key chosen (lookup chosen.session s.config.sessions) (lookup key w.active)
