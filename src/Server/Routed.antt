-- ===== src/Server/Routed.antt =====
-- With a validated configuration, the server never selects a session that does not exist.
use sun_ray2server.Prelude.{
  ℕ, zero, suc, ◌≡◌, refl, sym, Bool, true, false, ◌||◌, not, List, [], ◌∷◌, ◌++◌, Option, none,
  some, get_elem?, set, if◌then◌else◌, All, All-append, arith,
}
use mathlib.Core.Path.{subst}
use sun_ray2server.Prelude.Int.{ℤ, outside}
use sun_ray2server.Text.{Text, codes, same, lookup}
use sun_ray2server.Text.Laws.{lookup-All}
use sun_ray2server.Auth.{parse, value_of}
use sun_ray2server.Config.{Session, resolve}
use sun_ray2server.Config.Validation.{Net, validate}
use sun_ray2server.Config.Routes.{IsKnown, resolve-validate}
use sun_ray2server.Server.Resolution.{atoi}
use sun_ray2server.Server.State.{
  Setup, ActiveDisplay, SessionSelection, World, Action, receive, check, answer_keep_alive,
  answer_info, select_session, start_display, store_selection, switch_session, cancel, close,
  clear_input, clear_resync, spawn, run_session, draw, paint, set_input, set_resync, session_loop,
  close_client, close_all, Io, done, failed, ended, Outcome, then_do, card_present,
  card_session_slot, shut, is_current,
}
use sun_ray2server.Server.Connection.{handle_line}
use sun_ray2server.Server.Displays.{
  select_resolved, reselect, is_card_test, run_select_session, start_at, install_display,
  first_selection, show_selected, text_or_empty, run_start_display, switch_to, enter_session,
  run_switch_session,
}
use sun_ray2server.Server.System.{
  System, Event, accept, turn, stop, exec, after_answer, take_turn, perform, perform_all, boot,
}
use sun_ray2server.Server.Known.{
  IsSound, AreSound, AreKnown, insert-AreKnown, shut_sound, shut_all_sound, AreSound-if,
  start_session_sound, loop_session_sound, handle_parsed_sound, select_slot_sound,
}

module _ (s : Setup) (net : Net) (valid : validate s.unicode net s.config ≡ none) (w : World)
    (selected : AreKnown s.config.sessions w.selected) where
  abbrev Sound : Outcome → Type 0
  Sound o =
      AreKnown s.config.sessions o.world.selected
      × AreSound s.config.sessions o.next
      × AreSound s.config.sessions o.goroutine

  after_answer-Sound :
      (io : Io) (answer : Text) (next : List Action)
      → AreSound s.config.sessions next
      → Sound (after_answer io w answer next)
  after_answer-Sound done answer next h = (selected, h, tt)
  after_answer-Sound failed answer next h = (selected, tt, tt)
  after_answer-Sound ended answer next h = (selected, tt, tt)

  reselect_sound :
      (o : Option ActiveDisplay) (key : Text) (chosen : SessionSelection)
      → IsKnown s.config.sessions chosen.session
      → AreSound s.config.sessions (reselect s o key chosen)
  reselect_sound none key chosen k = tt
  reselect_sound (some a) key chosen k =
      AreSound-if s.config.sessions
        (not (same a.session chosen.session) || is_card_test s chosen.session) _ _ (k, tt) tt

  select_resolved-Sound :
      (key slot card_type card_id event : Text) (o : Option Text)
      → ((name : Text) → o ≡ some name → IsKnown s.config.sessions name)
      → Sound (select_resolved s w key slot card_type card_id event o)
  select_resolved-Sound key slot card_type card_id event none known = (selected, tt, tt)
  select_resolved-Sound key slot card_type card_id event (some name) known = (
    insert-AreKnown s.config.sessions key _ w.selected (known name refl) selected,
    reselect_sound (lookup key w.active) key _ (known name refl),
    tt,
  )

  resolved-IsKnown :
      (serial card : Text) (present : Bool) (name : Text)
      → resolve s.unicode s.config serial card present ≡ some name
      → IsKnown s.config.sessions name
  resolved-IsKnown serial card present name e =
      let (n, there, k) = resolve-validate s.unicode net s.config serial card present valid in
      let same_name : n ≡ name = cc in subst (λ x. IsKnown s.config.sessions x) same_name k

  first_selection-IsKnown :
      (properties : List (Text × Text))
      → IsKnown s.config.sessions (first_selection s properties).session
  unfolding first_selection
  first_selection-IsKnown properties =
      let (n, there, k) =
        resolve-validate s.unicode net s.config (value_of properties (codes "sn"))
          (value_of properties (codes "id"))
          (same
            (text_or_empty s
              (card_session_slot s.unicode (value_of properties (codes "type")) (codes "insert")))
            card_present)
          valid in
      subst (λ o. IsKnown s.config.sessions (text_or_empty s o)) (sym there) k

  show_selected_sound :
      (o : Option SessionSelection) (key : Text) (properties : List (Text × Text))
      → ((chosen : SessionSelection) → o ≡ some chosen → IsKnown s.config.sessions chosen.session)
      → AreSound s.config.sessions (show_selected s o key properties)
  show_selected_sound none key properties known =
      (first_selection-IsKnown properties, (first_selection-IsKnown properties, tt))
  show_selected_sound (some chosen) key properties known = (known chosen refl, tt)

  start_at-Sound :
      (key : Text) (ip : ℕ) (properties : List (Text × Text)) (o : Option ℤ)
      → Sound (start_at s w key ip properties o)
  unfolding install_display
  start_at-Sound key ip properties none = (selected, tt, tt)
  start_at-Sound key ip properties (some port) =
      elim (outside port 1 65535)
        as (λ b. Sound (if b then then_do w [] else install_display s w key ip port properties)) [
          | true ↦ (selected, tt, tt)
          | false ↦ (
            selected,
            All-append (λ a. IsSound s.config.sessions a) (shut (lookup key w.active))
                (show_selected s (lookup key w.selected) key properties)
                (shut_sound s.config.sessions (lookup key w.active))
                (show_selected_sound (lookup key w.selected) key properties (λ chosen e.
                  lookup-All (λ c. IsKnown s.config.sessions c.session) key w.selected chosen
                    selected e)),
            tt,
          )
        ]

  run_start_display-Sound :
      (io : Io) (key : Text) (ip : ℕ) (properties : List (Text × Text))
      → Sound (run_start_display s io w key ip properties)
  unfolding run_start_display
  run_start_display-Sound done key ip properties =
      start_at-Sound key ip properties (atoi (value_of properties (codes "pn")))
  run_start_display-Sound failed key ip properties = (selected, tt, tt)
  run_start_display-Sound ended key ip properties = (selected, tt, tt)

  switch_to-Sound :
      (key : Text) (chosen : SessionSelection) (o : Option Session) (p : Option ActiveDisplay)
      → Sound (switch_to s w key chosen o p)
  unfolding enter_session
  switch_to-Sound key chosen none p = (selected, tt, tt)
  switch_to-Sound key chosen (some d) none = (selected, tt, tt)
  switch_to-Sound key chosen (some d) (some a) = (selected, (tt, (tt, (tt, tt))), tt)

  exec-Sound : (io : Io) (a : Action) → IsSound s.config.sessions a → Sound (exec s io a w)
  unfolding exec run_select_session run_switch_session handle_line
  exec-Sound io (receive conn []) h = (selected, tt, tt)
  exec-Sound io (receive conn (line ∷ lines)) h =
      (selected, handle_parsed_sound s.config.sessions s conn lines (parse s.unicode line), tt)
  exec-Sound io (check conn lines) h =
      (selected, AreSound-if s.config.sessions w.stopping _ _ tt (tt, tt), tt)
  exec-Sound io (answer_info conn token lines) h = after_answer-Sound io _ _ (
      select_slot_sound s.config.sessions s conn
        (card_session_slot s.unicode (value_of conn.properties (codes "type"))
          (value_of conn.properties (codes "event")))
        (check conn lines ∷ []) (tt, tt))
  exec-Sound io (answer_keep_alive conn lines) h = after_answer-Sound io _ _ (tt, tt)
  exec-Sound io (select_session key serial slot card_type card_id event) h =
      select_resolved-Sound key slot card_type card_id event
        (resolve s.unicode s.config serial card_id (same slot card_present))
        (resolved-IsKnown serial card_id (same slot card_present))
  exec-Sound io (start_display key ip properties) h = run_start_display-Sound io key ip properties
  exec-Sound io (store_selection key chosen) h =
      (insert-AreKnown s.config.sessions key chosen w.selected h selected, tt, tt)
  exec-Sound io (switch_session key chosen) h =
      switch_to-Sound key chosen (lookup chosen.session s.config.sessions) (lookup key w.active)
  exec-Sound io (cancel c) h = (selected, tt, tt)
  exec-Sound io (close c) h = (selected, tt, tt)
  exec-Sound io (clear_input c) h = (selected, tt, tt)
  exec-Sound io (clear_resync c) h = (selected, tt, tt)
  exec-Sound io (spawn r) h = (selected, tt, (tt, tt))
  exec-Sound io (run_session r) h = (selected, start_session_sound s.config.sessions io r, tt)
  exec-Sound io (draw r) h =
      (selected, AreSound-if s.config.sessions (is_current w r) _ _ (tt, tt) tt, tt)
  exec-Sound io (paint r) h = (selected, tt, tt)
  exec-Sound io (set_input r) h = (selected, tt, tt)
  exec-Sound io (set_resync r) h = (selected, tt, tt)
  exec-Sound io (session_loop r) h = (selected, loop_session_sound s.config.sessions io w r, tt)
  exec-Sound io (close_client key) h =
      (selected, shut_sound s.config.sessions (lookup key w.active), tt)
  exec-Sound io close_all h = (tt, shut_all_sound s.config.sessions w.active, tt)

-- What the server has selected, and what its goroutines are about to select or to switch to.
abbrev pub IsRouted : Setup → System → Type 0
IsRouted s sys =
    AreKnown s.config.sessions sys.world.selected
    × All (λ g. AreSound s.config.sessions g) sys.goroutines

All-set {ℓ κ} :
    {A : Type ℓ} (P : A → Type κ) (xs : List A) (i : ℕ) (x : A)
    → All P xs
    → P x
    → All P (set xs i x)
All-set P [] i x h p = tt
All-set P (y ∷ ys) zero x (q, h) p = (p, h)
All-set P (y ∷ ys) (suc i) x (q, h) p = (q, All-set P ys i x h p)

All-get {ℓ κ} :
    {A : Type ℓ} (P : A → Type κ) (xs : List A) (i : ℕ) (x : A)
    → All P xs
    → get_elem? xs i ≡ some x
    → P x
All-get P [] i x h e = absurd (ground (arith, e))
All-get P (y ∷ ys) zero x (q, h) e = let same_item : y ≡ x = cc in subst P same_item q
All-get P (y ∷ ys) (suc i) x (q, h) e = All-get P ys i x h e

module _ (s : Setup) (net : Net) (valid : validate s.unicode net s.config ≡ none) where
  turn-IsRouted :
      (sys : System) (i : ℕ) (io : Io) (g : Option (List Action))
      → get_elem? sys.goroutines i ≡ g
      → IsRouted s sys
      → IsRouted s (take_turn s sys i io g)
  turn-IsRouted sys i io none at h = h
  turn-IsRouted sys i io (some []) at h = h
  turn-IsRouted sys i io (some (a ∷ rest)) at (known, sound) =
      let P : List Action → Type 0 = λ g. AreSound s.config.sessions g in
      let (now, later) = All-get P sys.goroutines i (a ∷ rest) sound at in
      let o = exec s io a sys.world in
      let (selected, next, goroutine) = exec-Sound s net valid sys.world known io a now in
      (
        selected,
        All-append P (set sys.goroutines i (o.next ++ rest)) (o.goroutine ∷ [])
            (All-set P sys.goroutines i (o.next ++ rest) sound
              (All-append (λ x. IsSound s.config.sessions x) o.next rest next later))
            (goroutine, tt),
      )

  perform-IsRouted : (e : Event) (sys : System) → IsRouted s sys → IsRouted s (perform s e sys)
  unfolding perform
  perform-IsRouted (accept host lines) sys (known, sound) =
      (known, All-append (λ g. AreSound s.config.sessions g) sys.goroutines _ sound ((tt, tt), tt))
  perform-IsRouted (turn i io) sys h = turn-IsRouted sys i io (get_elem? sys.goroutines i) refl h
  perform-IsRouted stop sys (known, sound) =
      (known, All-append (λ g. AreSound s.config.sessions g) sys.goroutines _ sound ((tt, tt), tt))

  perform_all-IsRouted :
      (es : List Event) (sys : System) → IsRouted s sys → IsRouted s (perform_all s es sys)
  perform_all-IsRouted [] sys h = h
  perform_all-IsRouted (e ∷ es) sys h =
      perform_all-IsRouted es (perform s e sys) (perform-IsRouted e sys h)

-- With a configuration that Validate accepts, after any events in any order of the goroutines' turns,
-- the configuration defines every session that is selected for a terminal and every session that a
-- goroutine is about to select or to switch a display to.
pub boot-IsRouted :
    (s : Setup) (net : Net) (es : List Event)
    → validate s.unicode net s.config ≡ none
    → IsRouted s (perform_all s es boot)
boot-IsRouted s net es valid = perform_all-IsRouted s net valid es boot (tt, tt)
