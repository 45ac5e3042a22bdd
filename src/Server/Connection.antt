-- ===== src/Server/Connection.antt =====
-- internal/server/server.go: handleConnection, a line at a time.
use sun_ray2server.Prelude.{ℕ, List, [], ◌∷◌, Option, none, some, if◌then◌else◌}
use sun_ray2server.Text.{Text, codes, same, is_empty, trim_space, insert_all}
use sun_ray2server.Auth.{Message, Parsed, message, refused, parse, get, value_of}
use sun_ray2server.Config.{lookup_fold}
use sun_ray2server.Server.State.{
  Setup, Connection, Action, receive, check, answer_keep_alive, answer_info, select_session,
  start_display, card_session_slot,
}

module _ (s : Setup) where
  -- none if there is no address for the terminal; some none if it is no IPv4 address.
  unfoldable pub terminal_display_ip : Text → Option (Option ℕ)
  terminal_display_ip serial = elim (lookup_fold s.unicode s.config.server.terminal_ips serial) [
    | none ↦ none
    | some address ↦ some (s.ipv4 (trim_space s.unicode address))
  ]

  abbrev pub display_ip : Connection → Option ℕ
  display_ip conn = elim (terminal_display_ip (value_of conn.properties (codes "sn"))) [
    | none ↦ s.ipv4 conn.remote_host
    | some ip ↦ ip
  ]

  -- The update of the properties and of the key by a message.
  unfoldable pub note_message : Connection → Message → Connection
  note_message conn m =
      let known : List (Text × Text) = insert_all conn.properties m.fields in
      record {
        remote_host = conn.remote_host;
        properties = known;
        client_key =
            let serial = value_of known (codes "sn") in
            if is_empty serial then conn.remote_host else serial;
      }

  abbrev pub start_at_address : Connection → List Text → Option ℕ → List Action
  start_at_address conn lines none = receive conn lines ∷ []
  start_at_address conn lines (some ip) =
      start_display conn.client_key ip conn.properties ∷ check conn lines ∷ []

  -- The branches of the switch on the type of the message.
  unfoldable pub handle_message : Connection → Message → List Text → List Action
  handle_message conn m lines =
      if same m.type (codes "infoReq")
      then answer_info conn (get m (codes "tokenSeq")) lines ∷ []
      else if same m.type (codes "keepAliveReq")
      then answer_keep_alive conn lines ∷ []
      else if same m.type (codes "connRsp")
      then start_at_address conn lines (display_ip conn)
      else check conn lines ∷ []

  abbrev pub handle_parsed : Connection → List Text → Parsed → List Action
  handle_parsed conn lines (refused e) = receive conn lines ∷ []
  handle_parsed conn lines (message m) = handle_message (note_message conn m) m lines

  unfoldable pub handle_line : Connection → Text → List Text → List Action
  handle_line conn line lines = handle_parsed conn lines (parse s.unicode line)

  abbrev pub select_slot : Connection → Option Text → List Action
  select_slot conn none = []
  select_slot conn (some slot) =
      let property : Text → Text = λ k. value_of conn.properties k in
      select_session conn.client_key (property (codes "sn")) slot (property (codes "type"))
        (property (codes "id")) (property (codes "event"))
      ∷ []

  -- What follows the answer to infoReq.
  abbrev pub select_card : Connection → List Action
  select_card conn = select_slot conn (
      card_session_slot s.unicode (value_of conn.properties (codes "type"))
        (value_of conn.properties (codes "event")))
