-- ===== src/Server/State.antt =====
-- internal/server/server.go: the state of the server and what its goroutines do to it, one action for
-- each part that a lock or a call makes indivisible. Clients and contexts are numbers, given out in order.
use sun_ray2server.Prelude.{
  ℕ, Bool, false, ◌&&◌, ◌||◌, not, List, [], ◌∷◌, ◌++◌, Option, none, some, ◌==◌, if◌then◌else◌,
}
use sun_ray2server.Prelude.Int.{ℤ}
use sun_ray2server.Text.{Text, Unicode, codes, trim_space, equal_fold, lookup}
use sun_ray2server.Config.{Config, Session}
use sun_ray2server.Server.Resolution.{Geometry}

-- `ipv4` is net.ParseIP and To4: none for a text that is no IPv4 address.
pub record Setup : Type 0 where
  pub unicode : Unicode
  pub ipv4 : Text → Option ℕ
  pub config : Config

-- `cancel` and `sessionCancel` are the numbers of the contexts that they cancel.
pub record ActiveDisplay : Type 0 where
  pub client : ℕ
  pub size : Geometry
  pub context : ℕ
  pub session_context : Option ℕ
  pub session : Text
  pub generation : ℕ

pub record SessionSelection : Type 0 where
  pub slot : Text
  pub session : Text
  pub card_type : Text
  pub card_id : Text
  pub event : Text

-- The arguments of a call of runSession; its generation is that of `active`.
pub record Run : Type 0 where
  pub context : ℕ
  pub key : Text
  pub active : ActiveDisplay
  pub selection : SessionSelection
  pub definition : Session

-- A connection and what handleConnection keeps of it.
pub record Connection : Type 0 where
  pub remote_host : Text
  pub properties : List (Text × Text)
  pub client_key : Text

-- The server's maps, and what the calls outside of it have done so far: the clients that were opened,
-- with address and port, those that were closed, the contexts that were cancelled, the calls of
-- runSession, the handlers of each client (the newest first), the answers and the pictures.
pub record World : Type 0 where
  pub active : List (Text × ActiveDisplay)
  pub selected : List (Text × SessionSelection)
  pub next_client : ℕ
  pub next_context : ℕ
  pub opened : List (ℕ × ℕ × ℤ)
  pub closed : List ℕ
  pub cancelled : List ℕ
  pub runs : List Run
  pub input_handlers : List (ℕ × Option ℕ)
  pub resync_handlers : List (ℕ × Option ℕ)
  pub written : List Text
  pub painted : List Run
  pub stopping : Bool

abbrev pub start : World
start = record {
  active = [];
  selected = [];
  next_client = 0;
  next_context = 0;
  opened = [];
  closed = [];
  cancelled = [];
  runs = [];
  input_handlers = [];
  resync_handlers = [];
  written = [];
  painted = [];
  stopping = false;
}

pub data Action : Type 0 where
  receive check answer_keep_alive : Connection → List Text → Action
  answer_info : Connection → Text → List Text → Action
  select_session : Text → Text → Text → Text → Text → Text → Action
  start_display : Text → ℕ → List (Text × Text) → Action
  store_selection switch_session : Text → SessionSelection → Action
  cancel close clear_input clear_resync : ℕ → Action
  spawn run_session draw paint set_input set_resync session_loop : Run → Action
  close_client : Text → Action
  close_all : Action

-- How the call of an action outside of the server ends: for the loop of a session, `done` is one more
-- picture, `failed` an error and `ended` a return without one.
pub data Io : Type 0 where
  done failed ended : Io

-- What an action leaves behind: the state, what its goroutine does next, and a goroutine that it starts.
pub record Outcome : Type 0 where
  pub world : World
  pub next : List Action
  pub goroutine : List Action

abbrev pub then_do : World → List Action → Outcome
then_do w next = record { world = w; next = next; goroutine = [] }

abbrev pub is_member : ℕ → List ℕ → Bool
is_member c [] = false
is_member c (d ∷ ds) = c == d || is_member c ds

-- Whether the context of the call, that of its display or that of the server is cancelled.
unfoldable pub is_done : World → Run → Bool
is_done w r =
    is_member r.context w.cancelled || is_member r.active.context w.cancelled || w.stopping

unfoldable pub is_current_session : World → Text → ℕ → ℕ → Bool
is_current_session w key client generation = elim (lookup key w.active) [
  | none ↦ false
  | some a ↦ a.client == client && a.generation == generation
]

abbrev pub is_current : World → Run → Bool
is_current w r = is_current_session w r.key r.active.client r.active.generation

abbrev pub no_card : Text
no_card = codes "no-card"

abbrev pub card_present : Text
card_present = codes "card-present"

-- none where the second result is false.
unfoldable pub card_session_slot : Unicode → Text → Text → Option Text
card_session_slot u card_type event =
    if not (equal_fold u (trim_space u event) (codes "insert"))
    then none
    else some
        (if equal_fold u (trim_space u card_type) (codes "pseudo") then no_card else card_present)

abbrev pub cancel_session : Option ℕ → List Action
cancel_session none = []
cancel_session (some c) = cancel c ∷ []

-- The calls that end a display, and none where there is no display.
abbrev pub shut : Option ActiveDisplay → List Action
shut none = []
shut (some a) = cancel_session a.session_context ++ (cancel a.context ∷ close a.client ∷ [])

abbrev pub shut_all : List (Text × ActiveDisplay) → List Action
shut_all [] = []
shut_all ((key, a) ∷ m) = shut (some a) ++ shut_all m
