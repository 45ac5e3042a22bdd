-- ===== src/Server/Changes.antt =====
-- What one turn does to the displays and the sessions: one of five changes.
use sun_ray2server.Prelude.{
  ℕ, suc, ◌+◌, ◌%◌, ◌≡◌, refl, true, false, List, [], ◌∷◌, ◌++◌, Option, none, some, if◌then◌else◌,
  get_elem?,
}
use sun_ray2server.Prelude.Int.{ℤ, outside}
use sun_ray2server.Text.{Text, codes, same, lookup, insert, remove}
use sun_ray2server.Auth.{value_of}
use sun_ray2server.Config.{Session, resolve}
use sun_ray2server.Server.Resolution.{atoi}
use sun_ray2server.Server.State.{
  Setup, ActiveDisplay, SessionSelection, Run, World, Action, receive, check, answer_keep_alive,
  answer_info, select_session, start_display, store_selection, switch_session, cancel, close,
  clear_input, clear_resync, spawn, run_session, draw, paint, set_input, set_resync, session_loop,
  close_client, close_all, Io, done, failed, ended, Outcome, then_do, card_present, shut, shut_all,
}
use sun_ray2server.Server.Displays.{
  select_resolved, run_select_session, start_at, install_display, new_display, run_start_display,
  switch_to, enter_session, next_session, new_run, with_cancelled, run_switch_session,
}
use sun_ray2server.Server.System.{
  System, Event, accept, turn, stop, exec, after_answer, take_turn, perform,
}

-- The displays, the calls of runSession, the number of clients and the contexts that are cancelled.
pub record Core : Type 0 where
  pub active : List (Text × ActiveDisplay)
  pub runs : List Run
  pub clients : ℕ
  pub cancelled : List ℕ

abbrev pub core : World → Core
core w = record {
  active = w.active;
  runs = w.runs;
  clients = w.next_client;
  cancelled = w.cancelled;
}

-- The display and the call that switchSession makes of a display.
abbrev pub Enters : ActiveDisplay → ActiveDisplay → Text → Run → Type 0
Enters a b key r =
    (b.client ≡ a.client)
    × (b.context ≡ a.context)
    × (b.generation ≡ (a.generation + 1) % 18446744073709551616)
    × (b.session_context ≡ some r.context)
    × (r.key ≡ key)
    × (r.active.client ≡ b.client)
    × (r.active.context ≡ b.context)
    × (r.active.generation ≡ b.generation)

-- The state before and after, and what the goroutine does next.
pub data Change (c : Core) : Core → List Action → Type 0 where
  kept : (next : List Action) → Change c c next
  cancelling :
      (x : ℕ) (next : List Action) → Change c (record c { cancelled = x ∷ c.cancelled }) next
  installed :
      (key : Text) (a : ActiveDisplay) (next : List Action)
      → a.client ≡ c.clients
      → a.generation ≡ 0
      → Change c
          (record c { active = insert key a c.active; clients = suc c.clients })
          (shut (lookup key c.active) ++ next)
  entered :
      (key : Text) (a b : ActiveDisplay) (r : Run) (next : List Action)
      → lookup key c.active ≡ some a
      → Enters a b key r
      → Change c
          (record c {
            active = insert key b c.active;
            runs = r ∷ c.runs;
            cancelled = with_cancelled a.session_context c.cancelled;
          })
          next
  removed :
      (key : Text)
      → Change c (record c { active = remove key c.active }) (shut (lookup key c.active))
  cleared : Change c (record c { active = [] }) (shut_all c.active)

module _ (s : Setup) (w : World) where
  abbrev Changes : Outcome → Type 0
  Changes o = Change (core w) (core o.world) o.next

  after_answer-Change :
      (io : Io) (answer : Text) (next : List Action) → Changes (after_answer io w answer next)
  after_answer-Change done answer next = kept next
  after_answer-Change failed answer next = kept []
  after_answer-Change ended answer next = kept []

  select_resolved-Change :
      (key slot card_type card_id event : Text) (o : Option Text)
      → Changes (select_resolved s w key slot card_type card_id event o)
  select_resolved-Change key slot card_type card_id event none = kept []
  select_resolved-Change key slot card_type card_id event (some name) = kept _

  start_at-Change :
      (key : Text) (ip : ℕ) (properties : List (Text × Text)) (o : Option ℤ)
      → Changes (start_at s w key ip properties o)
  unfolding install_display
  start_at-Change key ip properties none = kept []
  start_at-Change key ip properties (some port) =
      elim (outside port 1 65535)
        as (λ b. Changes (if b then then_do w [] else install_display s w key ip port properties)) [
          | true ↦ kept []
          | false ↦ installed key (new_display s w properties) _ refl refl
        ]

  run_start_display-Change :
      (io : Io) (key : Text) (ip : ℕ) (properties : List (Text × Text))
      → Changes (run_start_display s io w key ip properties)
  unfolding run_start_display
  run_start_display-Change done key ip properties =
      start_at-Change key ip properties (atoi (value_of properties (codes "pn")))
  run_start_display-Change failed key ip properties = kept []
  run_start_display-Change ended key ip properties = kept []

  switch_to-Change :
      (key : Text) (chosen : SessionSelection) (o : Option Session) (p : Option ActiveDisplay)
      → lookup key w.active ≡ p
      → Changes (switch_to s w key chosen o p)
  unfolding enter_session
  switch_to-Change key chosen none p e = kept []
  switch_to-Change key chosen (some d) none e = kept []
  switch_to-Change key chosen (some d) (some a) e =
      entered key a (next_session s w a chosen) (new_run s w key a chosen d) _ e
        (refl, refl, refl, refl, refl, refl, refl, refl)

  pub exec-Change : (io : Io) (a : Action) → Changes (exec s io a w)
  unfolding exec run_select_session run_switch_session
  exec-Change io (receive conn []) = kept _
  exec-Change io (receive conn (line ∷ lines)) = kept _
  exec-Change io (check conn lines) = kept _
  exec-Change io (answer_info conn token lines) = after_answer-Change io _ _
  exec-Change io (answer_keep_alive conn lines) = after_answer-Change io _ _
  exec-Change io (select_session key serial slot card_type card_id event) =
      select_resolved-Change key slot card_type card_id event
        (resolve s.unicode s.config serial card_id (same slot card_present))
  exec-Change io (start_display key ip properties) = run_start_display-Change io key ip properties
  exec-Change io (store_selection key chosen) = kept _
  exec-Change io (switch_session key chosen) =
      switch_to-Change key chosen (lookup chosen.session s.config.sessions) (lookup key w.active)
        refl
  exec-Change io (cancel c) = cancelling c []
  exec-Change io (close c) = kept _
  exec-Change io (clear_input c) = kept _
  exec-Change io (clear_resync c) = kept _
  exec-Change io (spawn r) = kept _
  exec-Change io (run_session r) = kept _
  exec-Change io (draw r) = kept _
  exec-Change io (paint r) = kept _
  exec-Change io (set_input r) = kept _
  exec-Change io (set_resync r) = kept _
  exec-Change io (session_loop r) = kept _
  exec-Change io (close_client key) = removed key
  exec-Change io close_all = cleared

-- Every event changes the displays in one of these ways.
abbrev pub Changed : Core → Core → Type 0
Changed c d = (next : List Action) × Change c d next

module _ (s : Setup) (sys : System) where
  take_turn-Changed :
      (i : ℕ) (io : Io) (g : Option (List Action))
      → Changed (core sys.world) (core (take_turn s sys i io g).world)
  take_turn-Changed i io none = ([], kept [])
  take_turn-Changed i io (some []) = ([], kept [])
  take_turn-Changed i io (some (a ∷ rest)) =
      ((exec s io a sys.world).next, exec-Change s sys.world io a)

  pub perform-Changed : (e : Event) → Changed (core sys.world) (core (perform s e sys).world)
  unfolding perform
  perform-Changed (accept host lines) = ([], kept [])
  perform-Changed (turn i io) = take_turn-Changed i io (get_elem? sys.goroutines i)
  perform-Changed stop = ([], kept [])
