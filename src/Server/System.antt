-- ===== src/Server/System.antt =====
-- internal/server/server.go: the goroutines of the server and how they take turns.
use sun_ray2server.Prelude.{
  ℕ, true, List, [], ◌∷◌, ◌++◌, Option, none, some, get_elem?, set, if◌then◌else◌,
}
use sun_ray2server.Text.{Text, codes, lookup, insert, remove}
use sun_ray2server.Auth.{info_response}
use sun_ray2server.Server.State.{
  Setup, Connection, World, Action, receive, check, answer_keep_alive, answer_info, select_session,
  start_display, store_selection, switch_session, cancel, close, clear_input, clear_resync, spawn,
  run_session, draw, paint, set_input, set_resync, session_loop, close_client, close_all, Io, done,
  failed, ended, Outcome, then_do, is_current, shut, shut_all, start,
}
use sun_ray2server.Server.Connection.{handle_line, select_card}
use sun_ray2server.Server.Displays.{run_select_session, run_start_display, run_switch_session}
use sun_ray2server.Server.Runs.{start_session, loop_session, input_of}

-- Writing an answer: if it fails, the connection ends.
abbrev pub after_answer : Io → World → Text → List Action → Outcome
after_answer done w answer next = then_do (record w { written = answer ∷ w.written }) next
after_answer failed w answer next = then_do w []
after_answer ended w answer next = then_do w []

module _ (s : Setup) where
  unfoldable pub exec : Io → Action → World → Outcome
  exec io (receive conn []) w = then_do w []
  exec io (receive conn (line ∷ lines)) w = then_do w (handle_line s conn line lines)
  exec io (check conn lines) w = then_do w (if w.stopping then [] else receive conn lines ∷ [])
  exec io (answer_info conn token lines) w =
      after_answer io w (info_response token) (select_card s conn ++ (check conn lines ∷ []))
  exec io (answer_keep_alive conn lines) w =
      after_answer io w (codes "keepAliveCnf") (check conn lines ∷ [])
  exec io (select_session key serial slot card_type card_id event) w =
      run_select_session s w key serial slot card_type card_id event
  exec io (start_display key ip properties) w = run_start_display s io w key ip properties
  exec io (store_selection key chosen) w =
      then_do (record w { selected = insert key chosen w.selected }) []
  exec io (switch_session key chosen) w = run_switch_session s w key chosen
  exec io (cancel c) w = then_do (record w { cancelled = c ∷ w.cancelled }) []
  exec io (close c) w = then_do (record w { closed = c ∷ w.closed }) []
  exec io (clear_input c) w =
      then_do (record w { input_handlers = (c, none) ∷ w.input_handlers }) []
  exec io (clear_resync c) w =
      then_do (record w { resync_handlers = (c, none) ∷ w.resync_handlers }) []
  exec io (spawn r) w = record { world = w; next = []; goroutine = run_session r ∷ [] }
  exec io (run_session r) w = then_do w (start_session io r)
  exec io (draw r) w = then_do w (if is_current w r then paint r ∷ [] else [])
  exec io (paint r) w = then_do (record w { painted = r ∷ w.painted }) []
  exec io (set_input r) w =
      then_do (record w { input_handlers = (r.active.client, input_of r) ∷ w.input_handlers }) []
  exec io (set_resync r) w =
      then_do (record w { resync_handlers = (r.active.client, some r.context) ∷ w.resync_handlers })
        []
  exec io (session_loop r) w = then_do w (loop_session io w r)
  exec io (close_client key) w =
      then_do (record w { active = remove key w.active }) (shut (lookup key w.active))
  exec io close_all w = then_do (record w { active = []; selected = [] }) (shut_all w.active)

-- A goroutine is the list of what it still has to do.
pub record System : Type 0 where
  pub world : World
  pub goroutines : List (List Action)

-- A connection with the lines that it will bring, one action of a goroutine, and the end of the server.
pub data Event : Type 0 where
  accept : Text → List Text → Event
  turn : ℕ → Io → Event
  stop : Event

abbrev pub new_connection : Text → Connection
new_connection host = record { remote_host = host; properties = []; client_key = [] }

-- The outcome of a goroutine's first action, and the goroutine then.
abbrev pub settle : System → ℕ → List Action → Outcome → System
settle sys i rest o = record {
  world = o.world;
  goroutines = set sys.goroutines i (o.next ++ rest) ++ (o.goroutine ∷ []);
}

abbrev pub boot : System
boot = record { world = start; goroutines = [] }

module _ (s : Setup) where
  abbrev pub take_turn : System → ℕ → Io → Option (List Action) → System
  take_turn sys i io none = sys
  take_turn sys i io (some []) = sys
  take_turn sys i io (some (a ∷ rest)) = settle sys i rest (exec s io a sys.world)

  unfoldable pub perform : Event → System → System
  perform (accept host lines) sys = record sys {
    goroutines = sys.goroutines ++ ((receive (new_connection host) lines ∷ []) ∷ []);
  }
  perform (turn i io) sys = take_turn sys i io (get_elem? sys.goroutines i)
  perform stop sys = record {
    world = record sys.world { stopping = true };
    goroutines = sys.goroutines ++ ((close_all ∷ []) ∷ []);
  }

  -- The events in order: every interleaving of the goroutines is a list of events.
  abbrev pub perform_all : List Event → System → System
  perform_all [] sys = sys
  perform_all (e ∷ es) sys = perform_all es (perform e sys)
