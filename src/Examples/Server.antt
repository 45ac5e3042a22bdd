-- ===== src/Examples/Server.antt =====
-- The configuration (internal/config), the authentication protocol (internal/auth) and the server
-- (internal/server) at concrete inputs.
use sun_ray2server.Prelude.{
  ℕ, ◌+◌, ◌≡◌, ◌⊎◌, ◌↔◌, refl, Bool, true, false, ◌&&◌, ◌||◌, [], ◌∷◌, ◌++◌, none, some, leb, ◌==◌,
  if◌then◌else◌,
}
use sun_ray2server.Prelude.Float.{fraction}
use sun_ray2server.Prelude.Int.{pos, Within}
use sun_ray2server.Text.{
  Text, Unicode, codes, same, has_prefix, trim_front, trim_back, trim_space, equal_fold, lookup,
  insert, find_fold,
}
use sun_ray2server.Auth.{message, parse}
use sun_ray2server.Auth.Parsing.{parse-spell, spell}
use sun_ray2server.Config.{Session, Config, card_test, vnc, is_graphical, resolve, lookup_fold}
use sun_ray2server.Config.Validation.{
  Net, validate, validate_mode, validate_vnc, validate_server, validate_type, validate_session,
  validate_sessions, validate_ips, validate_cards, validate_route, validate_terminals, is_blank,
}
use sun_ray2server.Config.Routes.{IsKnown, resolve-validate}
use sun_ray2server.Config.Ready.{IsReady, validate_session_lem}

abbrev upper : ℕ → Bool
upper c = leb 0x41 c && leb c 0x5A

abbrev pub ascii : Unicode
ascii = record {
  is_space = λ c. c == 0x20 || (leb 9 c && leb c 13);
  lower = λ c. if upper c then c + 32 else c;
  fold = λ c. if upper c then c + 32 else c;
}

abbrev pub net : Net
net = record {
  is_terminal_ip = λ t. same t (codes "10.0.0.7");
  splits_host_port = λ t. same t (codes "10.0.0.2:5900");
  is_web_url = λ t. false;
}

abbrev pub status : Session
status = record {
  type = card_test;
  address = [];
  image = [];
  hostname = [];
  port = pos 0;
  username = [];
  domain = [];
  password = [];
  password_file = [];
  private_key_file = [];
  known_hosts_file = [];
  host_key_sha256 = [];
  insecure_ignore_host_key = false;
  font_file = [];
  font_size = fraction (pos 0) 0;
  resolution_mode = [];
  display_width = pos 0;
  display_height = pos 0;
  certificate = [];
  url = [];
  browser_no_sandbox = false;
  interactive = none;
  reload_interval = pos 0;
  max_fps = pos 0;
}

abbrev pub desk : Session
desk = record status { type = vnc; address = codes "10.0.0.2:5900" }

abbrev pub config : Config
config = record {
  version = pos 1;
  server = record {
    listen = codes ":7009";
    fallback_width = pos 1280;
    fallback_height = pos 1024;
    display_width = pos 0;
    display_height = pos 0;
    packet_delay = pos 200000;
    smartcard_listen = [];
    log_input_events = false;
    terminal_ips = (codes "A1", codes "10.0.0.7") ∷ [];
  };
  sessions = (codes "status", status) ∷ (codes "desk", desk) ∷ [];
  routing = record {
    default = record {
      no_card = codes "status";
      card_present = codes "desk";
      cards = (codes "c1", codes "desk") ∷ [];
    };
    terminals = [];
  };
}

pub valid : validate ascii net config ≡ none
unfolding validate validate_server validate_ips validate_sessions validate_session validate_type
    validate_vnc validate_mode validate_route validate_cards validate_terminals same trim_space
    trim_front trim_back lookup has_prefix
valid = refl

-- A card is found by its number, whatever its case.
found : resolve ascii config (codes "A1") (codes "C1") true ≡ some (codes "desk")
unfolding resolve lookup_fold lookup find_fold equal_fold same
found = refl

-- Two keys that are equal but for their case, in the two orders in which a map may give them.
ambiguous :
    (lookup_fold ascii ((codes "ab", codes "x") ∷ (codes "Ab", codes "y") ∷ []) (codes "AB")
      ≡ some (codes "x"))
    × (lookup_fold ascii ((codes "Ab", codes "y") ∷ (codes "ab", codes "x") ∷ []) (codes "AB")
        ≡ some (codes "y"))
unfolding lookup_fold lookup find_fold equal_fold same
ambiguous = (refl, refl)

resolve-validate_example :
    (name : Text) × (resolve ascii config (codes "A1") (codes "C1") true ≡ some name)
    × IsKnown config.sessions name
resolve-validate_example = resolve-validate ascii net config (codes "A1") (codes "C1") true valid

validate_session_lem_example :
    (validate_session ascii net (codes "desk") desk ≡ none)
    ↔ (is_blank ascii (codes "desk") ≡ false)
      × ((is_graphical desk ≡ false) ⊎ (desk.max_fps ≡ pos 0) ⊎ Within 1 desk.max_fps 60)
      × IsReady ascii net desk
validate_session_lem_example = validate_session_lem ascii net (codes "desk") desk

parse-spell_example :
    parse ascii (codes "infoReq" ++ spell ((codes "sn", codes "A1") ∷ (codes "id", []) ∷ []))
    ≡ message (record {
      type = codes "infoReq";
      fields = (codes "sn", codes "A1") ∷ (codes "id", []) ∷ [];
    })
unfolding insert same
parse-spell_example =
    parse-spell ascii (codes "infoReq") ((codes "sn", codes "A1") ∷ (codes "id", []) ∷ []) refl refl
      refl (refl, (refl, (refl, (refl, (refl, (refl, (refl, tt)))))))
      (
        (refl, (refl, (refl, tt)), (refl, (refl, tt)), (refl, (refl, tt))),
        ((refl, (refl, (refl, tt)), (refl, (refl, tt)), tt), tt),
      )
