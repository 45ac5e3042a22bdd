-- ===== src/Examples/Terminals.antt =====
-- The server (internal/server) with a terminal that connects and then inserts another card.
use sun_ray2server.Prelude.{
  ℕ, zero, suc, ◌≡◌, ◌<◌, ◌⊎◌, refl, true, false, List, [], ◌∷◌, none, some, length, get_elem?,
  Memᴰ, if◌then◌else◌, arith,
}
use sun_ray2server.Prelude.Int.{pos}
use sun_ray2server.Text.{
  Text, codes, same, cut, trim_space, trim_front, trim_back, equal_fold, words, lookup, insert,
  find_fold,
}
use sun_ray2server.Auth.{parse, parse_fields}
use sun_ray2server.Config.{
  interactive_enabled, is_graphical, resolve, lookup_fold, resolution_server, vnc, rdp, web,
}
use sun_ray2server.Server.Resolution.{
  Geometry, digits, atoi, parse_resolution, display_size, new, vnc_display_geometry,
  rdp_display_geometry, web_display_geometry,
}
use sun_ray2server.Server.Geometry.{IsScreen, display_size-validate}
use sun_ray2server.Server.State.{
  Setup, done, Run, card_session_slot, is_current, is_current_session,
}
use sun_ray2server.Server.Connection.{
  terminal_display_ip, note_message, handle_message, handle_line,
}
use sun_ray2server.Server.Displays.{
  run_select_session, first_selection, install_display, run_start_display, enter_session,
  run_switch_session,
}
use sun_ray2server.Server.System.{Event, accept, turn, exec, perform, perform_all, boot}
use sun_ray2server.Server.Generations.{limit}
use sun_ray2server.Server.Runs.{start_session}
use sun_ray2server.Server.Current.{stale_for_good, one_current}
use sun_ray2server.Server.Pending.{IsDue}
use sun_ray2server.Server.Cancelling.{no_session_left}
use sun_ray2server.Server.Routed.{IsRouted, boot-IsRouted}
use sun_ray2server.Config.Validation.{
  validate_server, validate_session, validate_type, validate_vnc, validate_mode,
}
use sun_ray2server.Examples.Server.{ascii, net, config, status, desk, valid}

abbrev setup : Setup
setup = record {
  unicode = ascii;
  ipv4 = λ t. if same t (codes "10.0.0.7") then some 7 else none;
  config = config;
}

abbrev turns : ℕ → List Event
turns zero = []
turns (suc n) = turn 0 done ∷ turns n

abbrev lines : List Text
lines =
    codes "connRsp sn=A1 pn=4000 startRes=1400x1050:1280x1024"
    ∷ codes "infoReq sn=A1 type=pseudo id=c2 event=insert tokenSeq=3"
    ∷ []

-- The display is opened and shows its first session; then the pseudo card is inserted and the display
-- is switched to the session without a card.
abbrev switched : List Event
switched = accept (codes "10.0.0.7") lines ∷ turns 18

abbrev size : Geometry
size = record {
  width = pos 1400;
  height = pos 1050;
  reported_width = pos 1400;
  reported_height = pos 1050;
}

abbrev first_run : Run
first_run = record {
  context = 1;
  key = codes "A1";
  active = record {
    client = 0;
    size = size;
    context = 0;
    session_context = some 1;
    session = codes "desk";
    generation = 1;
  };
  selection = record {
    slot = codes "card-present";
    session = codes "desk";
    card_type = [];
    card_id = [];
    event = codes "insert";
  };
  definition = desk;
}

abbrev second_run : Run
second_run = record {
  context = 2;
  key = codes "A1";
  active = record {
    client = 0;
    size = size;
    context = 0;
    session_context = some 2;
    session = codes "status";
    generation = 2;
  };
  selection = record {
    slot = codes "no-card";
    session = codes "status";
    card_type = codes "pseudo";
    card_id = codes "c2";
    event = codes "insert";
  };
  definition = status;
}

runs_switched : (perform_all setup switched boot).world.runs ≡ second_run ∷ first_run ∷ []
unfolding perform exec handle_line handle_message note_message terminal_display_ip
    run_select_session first_selection install_display run_start_display enter_session
    run_switch_session parse parse_fields words cut trim_space trim_front trim_back lookup insert
    same equal_fold find_fold lookup_fold resolve card_session_slot digits atoi parse_resolution
    display_size new
runs_switched = refl

few : length (perform_all setup switched boot).world.runs < limit
few = rw runs_switched (omega arith)

first_started : Memᴰ first_run (perform_all setup switched boot).world.runs
first_started = rw runs_switched (Memᴰ.tail (Memᴰ.head refl))

second_started : Memᴰ second_run (perform_all setup switched boot).world.runs
second_started = rw runs_switched (Memᴰ.head refl)

first_stale : is_current (perform_all setup switched boot).world first_run ≡ false
unfolding perform exec handle_line handle_message note_message terminal_display_ip
    run_select_session first_selection install_display run_start_display enter_session
    run_switch_session parse parse_fields words cut trim_space trim_front trim_back lookup insert
    same equal_fold find_fold lookup_fold resolve card_session_slot digits atoi parse_resolution
    display_size new is_current_session
first_stale = refl

second_current : is_current (perform_all setup switched boot).world second_run ≡ true
unfolding perform exec handle_line handle_message note_message terminal_display_ip
    run_select_session first_selection install_display run_start_display enter_session
    run_switch_session parse parse_fields words cut trim_space trim_front trim_back lookup insert
    same equal_fold find_fold lookup_fold resolve card_session_slot digits atoi parse_resolution
    display_size new is_current_session
second_current = refl

-- The goroutine of the first session goes on only now.
abbrev late : List Event
late = turn 7 done ∷ turn 7 done ∷ turn 7 done ∷ turn 7 done ∷ []

runs_late :
    (perform_all setup late (perform_all setup switched boot)).world.runs
    ≡ second_run ∷ first_run ∷ []
unfolding perform exec handle_line handle_message note_message terminal_display_ip
    run_select_session first_selection install_display run_start_display enter_session
    run_switch_session parse parse_fields words cut trim_space trim_front trim_back lookup insert
    same equal_fold find_fold lookup_fold resolve card_session_slot digits atoi parse_resolution
    display_size new start_session interactive_enabled is_current_session
runs_late = refl

few_late : length (perform_all setup late (perform_all setup switched boot)).world.runs < limit
few_late = rw runs_late (omega arith)

-- It gives the client its own input handler although it is not current any more.
late_handler :
    get_elem? (perform_all setup late (perform_all setup switched boot)).world.input_handlers 0
    ≡ some (0, some 1)
unfolding perform exec handle_line handle_message note_message terminal_display_ip
    run_select_session first_selection install_display run_start_display enter_session
    run_switch_session parse parse_fields words cut trim_space trim_front trim_back lookup insert
    same equal_fold find_fold lookup_fold resolve card_session_slot digits atoi parse_resolution
    display_size new start_session interactive_enabled is_current_session
late_handler = refl

stale_for_good_example :
    is_current (perform_all setup late (perform_all setup switched boot)).world first_run ≡ false
stale_for_good_example =
    stale_for_good setup switched late first_run few_late first_started first_stale

one_current_example : second_run ≡ second_run
one_current_example =
    one_current setup switched second_run second_run few second_started second_started refl
      second_current second_current

no_session_left_example :
    (is_current (perform_all setup switched boot).world first_run ≡ true)
    ⊎ IsDue (perform_all setup switched boot) 1
    ⊎ IsDue (perform_all setup switched boot) 0
no_session_left_example = no_session_left setup switched first_run few first_started

boot-IsRouted_example : IsRouted setup (perform_all setup switched boot)
boot-IsRouted_example = boot-IsRouted setup net switched valid

server_valid : validate_server config.server ≡ none
unfolding validate_server
server_valid = refl

desk_valid : validate_session ascii net (codes "desk") desk ≡ none
unfolding validate_session validate_type validate_vnc validate_mode same trim_space trim_front
    trim_back
desk_valid = refl

display_size-validate_example :
    let a = display_size (new config.server) (codes "1400x1050") in
    ((desk.type ≡ vnc)
      × (((same desk.resolution_mode resolution_server ≡ true)
            × ((vnc_display_geometry a desk).1 ≡ pos 0)
            × ((vnc_display_geometry a desk).2 ≡ pos 0))
          ⊎ IsScreen (vnc_display_geometry a desk).1 (vnc_display_geometry a desk).2))
    ⊎ ((desk.type ≡ rdp) × IsScreen (rdp_display_geometry a desk).1 (rdp_display_geometry a desk).2)
    ⊎ ((desk.type ≡ web) × IsScreen (web_display_geometry a desk).1 (web_display_geometry a desk).2)
    ⊎ (is_graphical desk ≡ false)
display_size-validate_example =
    display_size-validate ascii net config.server (codes "desk") desk (codes "1400x1050")
      server_valid desk_valid
