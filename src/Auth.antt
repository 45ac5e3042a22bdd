-- ===== src/Auth.antt =====
-- internal/auth/message.go: the lines of the authentication protocol.
pub mod Parsing
use sun_ray2server.Prelude.{true, false, List, [], ◌∷◌, ◌++◌, Option, none, some}
use sun_ray2server.Text.{Text, Unicode, codes, cut, is_empty, trim_space, fields, insert, lookup}

-- The map of fields is a list with one entry for each key.
pub record Message : Type 0 where
  pub type : Text
  pub fields : List (Text × Text)

pub data AuthError : Type 0 where
  empty_message invalid_field : AuthError

pub data Parsed : Type 0 where
  message : Message → Parsed
  refused : AuthError → Parsed

-- The loop over the parts behind the first; none where a part is no `key=value` with a key.
unfoldable pub parse_fields : List (Text × Text) → List Text → Option (List (Text × Text))
parse_fields found [] = some found
parse_fields found (part ∷ parts) = elim (cut 0x3D part) [
  | none ↦ none
  | some (key, value) ↦ elim (is_empty key) [
    | true ↦ none
    | false ↦ parse_fields (insert key value found) parts
  ]
]

abbrev pub parse_words : List Text → Parsed
parse_words [] = refused empty_message
parse_words (kind ∷ parts) = elim (parse_fields [] parts) [
  | none ↦ refused invalid_field
  | some found ↦ message (record { type = kind; fields = found })
]

unfoldable pub parse : Unicode → Text → Parsed
parse u line = parse_words (fields u (trim_space u line))

-- A missing key gives the empty text.
abbrev pub value_of : List (Text × Text) → Text → Text
value_of values key = elim (lookup key values) [ none ↦ [] | some value ↦ value ]

abbrev pub get : Message → Text → Text
get m key = value_of m.fields key

unfoldable pub info_response : Text → Text
info_response token_seq =
    codes "connInf useReal=true encUpType=none tokenSeq="
    ++ (token_seq
        ++ codes
            " module=StartSession.m3 access=allowed token=pseudo.00212839eff9 encDownType=none")
