-- ===== src/Server/Known.antt =====
-- Actions that name only sessions that exist.
use sun_ray2server.Prelude.{
  ℕ, Bool, true, false, ◌&&◌, ◌||◌, not, List, [], ◌∷◌, ◌++◌, Option, none, some, if◌then◌else◌,
  All, All-append,
}
use sun_ray2server.Text.{Text, codes, same, insert}
use sun_ray2server.Auth.{Parsed, message, refused}
use sun_ray2server.Config.{Session, is_type, card_test, geometry_test, vnc, ssh, rdp, web}
use sun_ray2server.Config.Routes.{IsKnown}
use sun_ray2server.Server.State.{
  Setup, ActiveDisplay, SessionSelection, Run, Connection, World, Action, store_selection,
  switch_session, cancel, close, Io, done, failed, ended, shut, shut_all, cancel_session,
  is_current, is_done,
}
use sun_ray2server.Server.Connection.{
  handle_parsed, handle_message, note_message, start_at_address, display_ip, select_slot,
}
use sun_ray2server.Server.Runs.{start_session, loop_session, cannot_read}

All-if {ℓ κ} :
    {A : Type ℓ} (P : A → Type κ) (b : Bool) (xs ys : List A)
    → All P xs
    → All P ys
    → All P (if b then xs else ys)
All-if P true xs ys p q = p
All-if P false xs ys p q = q

module _ (sessions : List (Text × Session)) where
  -- A selection that is stored, or that a session is switched to, names a defined session.
  abbrev pub IsSound : Action → Type 0
  IsSound (store_selection key chosen) = IsKnown sessions chosen.session
  IsSound (switch_session key chosen) = IsKnown sessions chosen.session
  IsSound _ = Unit {0}

  abbrev pub AreSound : List Action → Type 0
  AreSound g = All (λ a. IsSound a) g

  abbrev pub AreKnown : List (Text × SessionSelection) → Type 0
  AreKnown selected = All (λ e. IsKnown sessions e.1.session) selected

  pub insert-AreKnown :
      (key : Text) (chosen : SessionSelection) (m : List (Text × SessionSelection))
      → IsKnown sessions chosen.session
      → AreKnown m
      → AreKnown (insert key chosen m)
  unfolding insert
  insert-AreKnown key chosen [] k h = (k, tt)
  insert-AreKnown key chosen ((j, c) ∷ m) k (p, h) =
      All-if (λ e. IsKnown sessions e.1.session) (same j key) ((key, chosen) ∷ m)
        ((j, c) ∷ insert key chosen m) (k, h) (p, insert-AreKnown key chosen m k h)

  cancel_session_sound :
      (o : Option ℕ) (next : List Action) → AreSound next → AreSound (cancel_session o ++ next)
  cancel_session_sound none next h = h
  cancel_session_sound (some c) next h = (tt, h)

  pub shut_sound : (o : Option ActiveDisplay) → AreSound (shut o)
  shut_sound none = tt
  shut_sound (some a) =
      cancel_session_sound a.session_context (cancel a.context ∷ close a.client ∷ []) (tt, (tt, tt))

  pub shut_all_sound : (m : List (Text × ActiveDisplay)) → AreSound (shut_all m)
  shut_all_sound [] = tt
  shut_all_sound ((key, a) ∷ m) =
      All-append (λ x. IsSound x) (shut (some a)) (shut_all m) (shut_sound (some a))
        (shut_all_sound m)

  pub AreSound-if :
      (b : Bool) (xs ys : List Action) → AreSound xs → AreSound ys → AreSound (if b then xs else ys)
  AreSound-if b xs ys = All-if (λ a. IsSound a) b xs ys

  pub start_session_sound : (io : Io) (r : Run) → AreSound (start_session io r)
  unfolding start_session
  start_session_sound io r =
      AreSound-if (is_type r.definition card_test) _ _ (tt, tt)
        (AreSound-if (is_type r.definition geometry_test) _ _ (tt, (tt, tt))
          (AreSound-if (is_type r.definition web) _ _ (tt, (tt, (tt, (tt, tt))))
            (AreSound-if (cannot_read io r.definition) _ _ tt (
              AreSound-if (is_type r.definition vnc || is_type r.definition rdp) _ _
                (tt, (tt, (tt, (tt, tt))))
                (AreSound-if (is_type r.definition ssh) _ _ (tt, (tt, (tt, tt))) tt)))))

  pub loop_session_sound : (io : Io) (w : World) (r : Run) → AreSound (loop_session io w r)
  unfolding loop_session
  loop_session_sound done w r = AreSound-if (is_current w r) _ _ (tt, (tt, tt)) (tt, tt)
  loop_session_sound failed w r =
      AreSound-if ((is_type r.definition rdp || is_type r.definition web) && not (is_done w r)) _ _
        (tt, tt) tt
  loop_session_sound ended w r = tt

  start_at_address_sound :
      (s : Setup) (conn : Connection) (lines : List Text) (o : Option ℕ)
      → AreSound (start_at_address s conn lines o)
  start_at_address_sound s conn lines none = (tt, tt)
  start_at_address_sound s conn lines (some ip) = (tt, (tt, tt))

  pub handle_parsed_sound :
      (s : Setup) (conn : Connection) (lines : List Text) (p : Parsed)
      → AreSound (handle_parsed s conn lines p)
  unfolding handle_message
  handle_parsed_sound s conn lines (refused e) = (tt, tt)
  handle_parsed_sound s conn lines (message m) =
      let noted = note_message s conn m in
      AreSound-if (same m.type (codes "infoReq")) _ _ (tt, tt)
        (AreSound-if (same m.type (codes "keepAliveReq")) _ _ (tt, tt)
          (AreSound-if (same m.type (codes "connRsp")) _ _
            (start_at_address_sound s noted lines (display_ip s noted)) (tt, tt)))

  pub select_slot_sound :
      (s : Setup) (conn : Connection) (o : Option Text) (next : List Action)
      → AreSound next
      → AreSound (select_slot s conn o ++ next)
  select_slot_sound s conn none next h = h
  select_slot_sound s conn (some slot) next h = (tt, h)
