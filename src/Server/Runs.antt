-- ===== src/Server/Runs.antt =====
-- internal/server/server.go: runSession and the functions that start the types of session.
use sun_ray2server.Prelude.{
  ℕ, Bool, false, ◌&&◌, ◌||◌, not, List, [], ◌∷◌, Option, none, some, if◌then◌else◌,
}
use sun_ray2server.Text.{is_empty}
use sun_ray2server.Config.{
  Session, is_type, card_test, geometry_test, vnc, ssh, rdp, web, interactive_enabled,
}
use sun_ray2server.Server.State.{
  Run, World, Action, draw, paint, set_input, set_resync, session_loop, Io, done, failed, ended,
  is_done, is_current,
}

abbrev pub cannot_read : Io → Session → Bool
cannot_read failed d = is_empty d.password && not (is_empty d.password_file)
cannot_read done d = false
cannot_read ended d = false

abbrev pub attach : Run → List Action
attach r = draw r ∷ set_resync r ∷ set_input r ∷ session_loop r ∷ []

-- The switch of runSession; `failed` is a password file that cannot be read, and only a definition
-- without a password has one.
unfoldable pub start_session : Io → Run → List Action
start_session io r =
    let unreadable = cannot_read io r.definition in
    if is_type r.definition card_test
    then draw r ∷ []
    else if is_type r.definition geometry_test
    then set_input r ∷ session_loop r ∷ []
    else if is_type r.definition web
    then attach r
    else if unreadable
    then []
    else if is_type r.definition vnc || is_type r.definition rdp
    then attach r
    else if is_type r.definition ssh
    then draw r ∷ set_input r ∷ session_loop r ∷ []
    else []

-- The type's call of SetInputHandler: its session's handler, or nil if it is not interactive.
abbrev pub input_of : Run → Option ℕ
input_of r =
    if is_type r.definition geometry_test
      || is_type r.definition ssh
      || interactive_enabled r.definition
    then some r.context
    else none

-- The loop of a session: OnFrame paints for the current session and is refused for any other, where
-- the session's client may end or try again; an error of an RDP or browser session that was not
-- cancelled is shown in the same way.
unfoldable pub loop_session : Io → World → Run → List Action
loop_session done w r =
    if is_current w r then paint r ∷ session_loop r ∷ [] else session_loop r ∷ []
loop_session failed w r =
    if (is_type r.definition rdp || is_type r.definition web) && not (is_done w r)
    then draw r ∷ []
    else []
loop_session ended w r = []
