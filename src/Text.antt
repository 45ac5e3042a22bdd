-- ===== src/Text.antt =====
-- The parts of Go's package strings that the server uses. A text is the list of its code points, and
-- what Unicode says of a code point is a parameter.
pub mod Laws
use Prim.Native.Char.{code}
use Prim.Native.String.{String}
use sun_ray2server.Prelude.{
  ℕ, Bool, true, false, ◌&&◌, List, [], ◌∷◌, ◌++◌, map, Option, none, some, ◌==◌, if◌then◌else◌,
}

abbrev pub Text : Type 0
Text = List ℕ

-- The code points of a literal.
abbrev pub codes : String → Text
codes String.[] = []
codes (String.◌∷◌ c s) = code c ∷ codes s

-- unicode.IsSpace, unicode.ToLower, and a code point that stands for all that are equal under simple
-- case folding.
pub record Unicode : Type 0 where
  pub is_space : ℕ → Bool
  pub lower : ℕ → ℕ
  pub fold : ℕ → ℕ

-- `s == t`
unfoldable pub same : Text → Text → Bool
same [] [] = true
same [] (d ∷ t) = false
same (c ∷ s) [] = false
same (c ∷ s) (d ∷ t) = c == d && same s t

abbrev pub is_empty : Text → Bool
is_empty [] = true
is_empty (c ∷ s) = false

-- strings.Cut at a character; none where it does not occur.
unfoldable pub cut : ℕ → Text → Option (Text × Text)
cut c [] = none
cut c (d ∷ s) =
    let rest : Option (Text × Text) = elim (cut c s) [
      | none ↦ none
      | some (a, b) ↦ some (d ∷ a, b)
    ] in
    if d == c then some ([], s) else rest

-- strings.HasPrefix
unfoldable pub has_prefix : Text → Text → Bool
has_prefix s [] = true
has_prefix [] (d ∷ p) = false
has_prefix (c ∷ s) (d ∷ p) = c == d && has_prefix s p

module _ (u : Unicode) where
  unfoldable pub trim_front : Text → Text
  trim_front [] = []
  trim_front (c ∷ s) = let rest = trim_front s in if u.is_space c then rest else c ∷ s

  unfoldable pub trim_back : Text → Text
  trim_back [] = []
  trim_back (c ∷ s) =
      let rest = trim_back s in if is_empty rest && u.is_space c then [] else c ∷ rest

  -- strings.TrimSpace
  unfoldable pub trim_space : Text → Text
  trim_space s = trim_back (trim_front s)

  -- strings.ToLower
  abbrev pub to_lower : Text → Text
  to_lower s = map u.lower s

  -- strings.EqualFold
  unfoldable pub equal_fold : Text → Text → Bool
  equal_fold s t = same (map u.fold s) (map u.fold t)

  -- strings.Fields: the word so far, and the rest of the text.
  unfoldable pub words : Text → Text → List Text
  words word [] = if is_empty word then [] else word ∷ []
  words word (c ∷ s) =
      let next = words [] s in
      let longer = words (word ++ (c ∷ [])) s in
      if u.is_space c then (if is_empty word then next else word ∷ next) else longer

  abbrev pub fields : Text → List Text
  fields s = words [] s

-- A Go map as the list of its entries, in the order in which `range` visits them.
module _ {ℓ} {V : Type ℓ} where
  unfoldable pub lookup : Text → List (Text × V) → Option V
  lookup k [] = none
  lookup k ((j, v) ∷ m) = let rest = lookup k m in if same j k then some v else rest

  unfoldable pub insert : Text → V → List (Text × V) → List (Text × V)
  insert k v [] = (k, v) ∷ []
  insert k v ((j, w) ∷ m) =
      let rest = insert k v m in if same j k then (k, v) ∷ m else (j, w) ∷ rest

  -- An assignment for each entry, in order.
  abbrev pub insert_all : List (Text × V) → List (Text × V) → List (Text × V)
  insert_all m [] = m
  insert_all m ((k, v) ∷ es) = insert_all (insert k v m) es

  unfoldable pub remove : Text → List (Text × V) → List (Text × V)
  remove k [] = []
  remove k ((j, v) ∷ m) = let rest = remove k m in if same j k then rest else (j, v) ∷ rest

  -- The first entry whose key equals `k` under case folding.
  unfoldable pub find_fold : Unicode → Text → List (Text × V) → Option V
  find_fold u k [] = none
  find_fold u k ((j, v) ∷ m) =
      let rest = find_fold u k m in if equal_fold u j k then some v else rest
