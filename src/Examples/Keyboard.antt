-- ===== src/Examples/Keyboard.antt =====
-- Keyboard and pointer reports (internal/display/input.go, client.go) at concrete inputs.
use sun_ray2server.Ssh.Keyboard.{handle_input, key_bytes, key_sequence, is_key}
use sun_ray2server.Ssh.Keyboard.Typing.{key_bytes_ascii}
use sun_ray2server.Prelude.{
  ℕ, ◌+◌, ◌≤◌, ◌<◌, ◌≡◌, ◌⊎◌, refl, true, false, All, length, List, [], ◌∷◌, ◌++◌, some, replicate,
  arith, ◌^◌, ◌*◌,
}
use sun_ray2server.Display.Input.{
  InputEvent, input_key, new_decoder, keyboard, key_events, key_input, key_changes,
  modifier_changes, reported,
}
use sun_ray2server.Display.Input.Replay.{track, bit_set, keyboard-replay, keyboard-replay_modifiers}
use sun_ray2server.Display.Input.Order.{ReleasesFirst, keyboard-ReleasesFirst}
use sun_ray2server.Display.Client.{Env, Client, new_client}
use sun_ray2server.Display.Packet.{handle_packet}
use sun_ray2server.Display.Packet.Parsing.{handle_packet-keyboard, handle_packet-RunsTo, RunsTo}

-- Left shift and the key A (usage 4).
abbrev shift_a : List ℕ
shift_a = 0xC1 ∷ 0 ∷ 0 ∷ 0 ∷ 0 ∷ 0 ∷ 0 ∷ 2 ∷ 4 ∷ 0 ∷ 0 ∷ 0 ∷ 0 ∷ 0 ∷ 0 ∷ 0 ∷ []

abbrev chord : List InputEvent
chord = key_input 0xE1 true 2 ∷ key_input 4 true 2 ∷ []

shift_before_a : (keyboard new_decoder shift_a).0 ≡ some chord
unfolding keyboard new_decoder key_events key_changes modifier_changes reported key_input
shift_before_a = refl

keyboard-replay_example :
    track 4 (new_decoder.keys 4) chord ≡ (keyboard new_decoder shift_a).1.keys 4
keyboard-replay_example =
    keyboard-replay new_decoder shift_a 4 shift_before_a (omega arith) (omega arith)

keyboard-replay_modifiers_example :
    track (0xE0 + 1) (bit_set new_decoder.modifiers (2 ^ 1)) chord
    ≡ bit_set (keyboard new_decoder shift_a).1.modifiers (2 ^ 1)
unfolding new_decoder reported
keyboard-replay_modifiers_example =
    keyboard-replay_modifiers new_decoder shift_a 1 shift_before_a (omega arith) refl refl

keyboard-ReleasesFirst_example : ReleasesFirst chord
keyboard-ReleasesFirst_example = keyboard-ReleasesFirst new_decoder shift_a shift_before_a

abbrev pointer_report : List ℕ
pointer_report = 0xC2 ∷ 0 ∷ 0 ∷ 0 ∷ 0 ∷ 0x41 ∷ 1 ∷ 0 ∷ 0 ∷ 9 ∷ 0xFF ∷ 0xFF ∷ []

abbrev all_ok : Env
all_ok = record { clock = λ i. i * 1000; write_ok = λ i. true }

abbrev listening : Client
listening = record (new_client 0 false) { on_input = true }

handle_packet-keyboard_example :
    let c' = handle_packet all_ok listening (replicate 16 0 ++ shift_a) in
    (c'.delivered ≡ listening.delivered ++ key_events listening.decoder shift_a)
    × (c'.decoder ≡ (keyboard listening.decoder shift_a).1)
handle_packet-keyboard_example =
    handle_packet-keyboard all_ok listening (replicate 16 0) shift_a refl refl refl refl

handle_packet-RunsTo_example :
    RunsTo all_ok listening shift_a (handle_packet all_ok listening (replicate 16 0 ++ shift_a))
handle_packet-RunsTo_example =
    handle_packet-RunsTo all_ok listening (replicate 16 0 ++ shift_a) (omega arith)

-- Caps lock, then the letter a with the right Alt held: an escape and a capital letter.
typed :
    handle_input
      (handle_input (record { caps = false; stdin = some [] }) (key_input 0x39 true 0))
      (key_input 4 true 0x40)
    ≡ record { caps = true; stdin = some (0x1B ∷ 0x41 ∷ []) }
unfolding handle_input key_bytes key_sequence key_input
typed = refl

key_bytes_ascii_example :
    All (λ b. b < 128) (key_bytes (key_input 4 true 0x40) true)
    × (length (key_bytes (key_input 4 true 0x40) true) ≤ 6)
    × ((key_bytes (key_input 4 true 0x40) true ≡ [])
        ⊎ ((is_key input_key ≡ true) × (true ≡ true) × (4 < 0xE0)))
unfolding key_input
key_bytes_ascii_example = key_bytes_ascii (key_input 4 true 0x40) true
