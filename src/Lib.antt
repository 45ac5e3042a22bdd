-- ===== src/Lib.antt =====
-- SunRay2Server, a server for Sun Ray thin clients: a model of its logic and theorems about it.
--
-- The server talks to a terminal over UDP. Drawing operations are built (Display.Operation, after
-- internal/display/operation.go), numbered and packed into datagrams by the display client
-- (Display.Client, Display.Resend, Display.Packet and Display.Sequence, after
-- internal/display/client.go), which keeps a history of what it sent and replays it when the
-- terminal reports a gap. The client also hands keyboard and pointer reports to a decoder
-- (Display.Input, after internal/display/input.go), whose events drive the sessions, of which the
-- calibration of the screen geometry is modelled (Geometry, after internal/geometry/session.go).
-- A picture is turned into operations in bands and tiles (Display.Render, after
-- internal/display/render.go).
-- An SSH session draws on a terminal emulator (Ssh.Runes, Ssh.Color, Ssh.Buffer, Ssh.Screen and
-- Ssh.Terminal, after internal/sshclient/terminal.go) and sends what is typed (Ssh.Keyboard, after
-- internal/sshclient/keyboard.go and HandleInput of internal/sshclient/session.go).
-- Of the VNC session, the fitting of the remote picture and the table of keysyms are modelled
-- (Vnc.Scale and Vnc.Keysym, after internal/vnc/scale.go and internal/vnc/keysym.go).
-- A terminal first connects over TCP and sends lines of a small protocol (Auth, after
-- internal/auth/message.go). The server (Server, after internal/server/server.go) looks up the
-- session for the terminal and its card in the configuration (Config, after
-- internal/config/config.go), opens a display and switches it between sessions.
-- A passive probe looks for smart-card ATRs in the bytes that a terminal sends (Smartcard.Atr and
-- Smartcard.Probe, after internal/smartcard/atr.go and internal/smartcard/probe.go).
--
-- The module named for a part holds its definitions, and the modules below it their theorems; Prelude
-- holds the shared helpers. Two parts have modules below them for definitions as well: Server has
-- Resolution, State, Connection, Displays, Runs and System, and Display.Render has Pixels, Tiles and
-- Showing. Examples holds the tests and the theorems at concrete inputs.
--
-- How state and operations correspond to the code:
--   * Client is the struct of that name, less the socket, the mutexes and the logger. Its history is
--     an association list, newest first, in place of a map; `sent` and `delivered` record what the
--     socket and the input handler got, `resyncs` the calls of the resync handler. The channel
--     nackRequests of capacity one is an Option. new_client, close, flush_history, send_batch, send,
--     pace_packet, send_packet and send_operations stand for Open, Close, FlushHistory, SendBatch,
--     Send, pacePacketLocked, sendPacketLocked and sendEncodedOperationsLocked; resend,
--     record_resend, send_resend_completion and queue_resend for the functions of the same names.
--   * Env is what the client cannot decide: the clock at each reading and the outcome of each write
--     to the socket. Both are functions of how many readings or writes came before.
--   * A method that holds a mutex is one step; goroutines are sequences of such steps.
--   * Byte sequences are lists of numbers, and a conversion to a narrower integer is written out as
--     a remainder (Prelude.Bytes). Counters of type int are natural numbers: they stay far below the
--     point at which they would wrap.
--   * InputDecoder, keyboard and pointer are the decoder of input.go; the 256 keys held are a
--     function. Calibration and run are the loop of the geometry session over the events that it
--     takes from its channel, and handle_input is the filter in front of that channel.
--   * Terminal is the struct terminal; its slices cells and dirty are the record Buffer, whose flag
--     `panicked` is set where Go would panic on an index or a slice bound, and Pen holds the fields
--     fg, bg, bold and inverse. The values 0 to 5 of the field state are the constructors of State.
--     write is Write, feed its loop, step a round of it, control, escape and execute_csi the
--     functions they call; parameters are 64-bit integers whose sums wrap. Which runes are
--     combining marks is a parameter, for the tables of the package unicode.
--   * An Image is its bounds and the colour of each pixel, for image.Image and rgbaAt. A scanline is
--     the list of its pixels; scan_one and scan_two are the two phases of the loop of
--     classifyScanline, merge_scanlines is the loop that collects compatible lines, and encode_bitmap
--     is appendEncodedBitmapOperations with none for its error. cuts has a round for each pixel of a
--     direction, and a tile has one pixel or more.
--   * Texts are lists of code points, and Text has the parts of the package strings that are used;
--     what unicode says of a code point is the parameter Unicode. A Go map is the list of its
--     entries in the order in which range visits them. Net is what the packages net and net/url say
--     of an address, and Setup.ipv4 is net.ParseIP with To4. A float64 is a fraction over a power of
--     two, an infinity, or not a number (Prelude.Float), and compares as in Go.
--     validate is Validate with a constructor of ConfigError for each error that it returns, and
--     validate_mode, validate_host and the others are parts of it that several types share.
--   * The goroutines of the server are lists of actions. exec does one action, which is what a lock
--     or a call makes indivisible, and says what the goroutine does next; perform lets a goroutine
--     take its turn, accepts a connection with all lines that it will bring, or ends the server.
--     perform_all does the events of a list, so that every interleaving is such a list. Io is the
--     outcome of the call that the action makes outside. World holds the maps active and selected of
--     the struct Server, and records what was opened, closed, cancelled, started, handled, answered
--     and painted; clients and contexts are numbers. is_done is ctx.Err() != nil. A session's client
--     is the action session_loop, which brings any number of pictures. Nothing calls closeClient, and
--     no goroutine gets its action close_client.
--   * parse_atr and find_atrs are ParseATR and FindATRs; handle_connection is the loop of the probe
--     over the chunks that it reads.
--
-- Fuel: handle_operations takes a round for each operation of a packet and gets as many rounds as
-- the packet has bytes, where each operation takes 12 or more. find_from takes a byte or more in
-- each round and gets as many rounds as there are bytes. read_groups has the code's own limit of
-- eight groups. feed and sgr_loop recurse on their list and count what is to be passed over.
--
-- Not modelled: sockets, files, processes, logging, fonts and images, the YAML package and the paths
-- that Load makes absolute, and the parts of the server outside the files named above.
pub mod Prelude
pub mod Display
pub mod Geometry
pub mod Smartcard
pub mod Text
pub mod Auth
pub mod Config
pub mod Server
pub mod Ssh
pub mod Vnc
mod Examples
