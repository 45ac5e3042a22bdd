-- ===== src/Auth/Parsing.antt =====
-- A line that is put together from a type and fields is parsed into them.
use sun_ray2server.Prelude.{
  ℕ, ◌≡◌, refl, ap, ◌∙◌, true, false, ◌&&◌, List, [], ◌∷◌, ◌++◌, map, some, All, ◌==◌, Bool-cases,
  inl, inr, arith,
}
use mathlib.Core.List.{append_assoc, append-nil}
use sun_ray2server.Text.{
  Text, Unicode, cut, is_empty, trim_space, trim_front, trim_back, words, insert, insert_all,
}
use sun_ray2server.Auth.{message, parse, parse_words, parse_fields}

is_empty-nil : (s : Text) → is_empty s ≡ true → s ≡ []
is_empty-nil [] h = refl
is_empty-nil (c ∷ s) h = absurd (ground (arith, h))

module _ (u : Unicode) where
  words-trim_front : (s : Text) → words u [] (trim_front u s) ≡ words u [] s
  unfolding trim_front words
  words-trim_front [] = refl
  words-trim_front (c ∷ s) = ground (arith, words-trim_front s)

  words-trim_back : (w s : Text) → words u w (trim_back u s) ≡ words u w s
  unfolding trim_back words
  words-trim_back w [] = refl
  words-trim_back w (c ∷ s) = elim (Bool-cases (is_empty (trim_back u s) && u.is_space c)) [
    | inl h ↦
        ground (arith, h, words-trim_back [] s, is_empty-nil (trim_back u s) (ground (arith, h)))
    | inr h ↦ ground (arith, h, words-trim_back [] s, words-trim_back (w ++ (c ∷ [])) s)
  ]

  words-trim_space : (s : Text) → words u [] (trim_space u s) ≡ words u [] s
  unfolding trim_space
  words-trim_space s = words-trim_back [] (trim_front u s) ∙ words-trim_front s

  -- A text without white space.
  abbrev pub IsSolid : Text → Type 0
  IsSolid s = All (λ c. u.is_space c ≡ false) s

  words_solid :
      (w s : Text) (c : ℕ) (t : Text)
      → IsSolid s
      → u.is_space c ≡ true
      → is_empty (w ++ s) ≡ false
      → words u w (s ++ (c ∷ t)) ≡ (w ++ s) ∷ words u [] t
  unfolding words
  words_solid w [] c t h sp ne = ground (arith, sp, ne, append-nil w)
  words_solid w (d ∷ s) c t (p, h) sp ne =
      rw
        (
          p,
          words_solid (w ++ (d ∷ [])) s c t h sp (rw (append_assoc w (d ∷ []) s) ne),
          append_assoc w (d ∷ []) s,
        )
        refl

  words_last : (w s : Text) → IsSolid s → is_empty (w ++ s) ≡ false → words u w s ≡ (w ++ s) ∷ []
  unfolding words
  words_last w [] h ne = ground (arith, ne, append-nil w)
  words_last w (d ∷ s) (p, h) ne =
      rw
        (
          p,
          words_last (w ++ (d ∷ [])) s h (rw (append_assoc w (d ∷ []) s) ne),
          append_assoc w (d ∷ []) s,
        )
        refl

abbrev pub Fields : Type 0
Fields = List (Text × Text)

abbrev pub part : Text × Text → Text
part (k, v) = k ++ (0x3D ∷ v)

-- A blank and `key=value` for each field.
abbrev pub spell : Fields → Text
spell [] = []
spell (f ∷ fs) = 0x20 ∷ (part f ++ spell fs)

cut_part :
    (k v : Text) → All (λ c. (c == 0x3D) ≡ false) k → cut 0x3D (k ++ (0x3D ∷ v)) ≡ some (k, v)
unfolding cut
cut_part [] v h = refl
cut_part (c ∷ k) v (p, h) = rw (cut_part k v h) ground (arith, p)

-- The key is not empty and has no `=`, and neither part has white space.
abbrev pub IsField : Unicode → Text × Text → Type 0
IsField u (k, v) =
    (is_empty k ≡ false) × All (λ c. (c == 0x3D) ≡ false) k × IsSolid u k × IsSolid u v

parse_fields_spelled :
    (u : Unicode) (found fs : Fields)
    → All (λ f. IsField u f) fs
    → parse_fields found (map part fs) ≡ some (insert_all found fs)
unfolding parse_fields
parse_fields_spelled u found [] h = refl
parse_fields_spelled u found ((k, v) ∷ fs) ((ne, eq, s, t), h) =
    ground (arith, cut_part k v eq, ne, parse_fields_spelled u (insert k v found) fs h)

module _ (u : Unicode) (blank : u.is_space 0x20 ≡ true) (solid : u.is_space 0x3D ≡ false) where
  IsSolid-append : (s t : Text) → IsSolid u s → IsSolid u t → IsSolid u (s ++ t)
  IsSolid-append [] t h g = g
  IsSolid-append (c ∷ s) t (p, h) g = (p, IsSolid-append s t h g)

  is_empty-part : (k v : Text) → is_empty (part (k, v)) ≡ false
  is_empty-part [] v = refl
  is_empty-part (c ∷ k) v = refl

  words_spelled :
      (w : Text) (fs : Fields)
      → is_empty w ≡ false
      → IsSolid u w
      → All (λ f. IsField u f) fs
      → words u [] (w ++ spell fs) ≡ w ∷ map part fs
  words_spelled w [] ne s h = rw (append-nil w) (words_last u [] w s ne)
  words_spelled w ((k, v) ∷ fs) ne s ((ke, eq, ks, vs), h) =
      words_solid u [] w 0x20 (part (k, v) ++ spell fs) s blank ne
      ∙ ap (λ l. w ∷ l)
          (words_spelled (part (k, v)) fs (is_empty-part k v)
            (IsSolid-append k (0x3D ∷ v) ks (solid, vs)) h)

parse_words_found :
    (kind : Text) (parts : List Text) (found : Fields)
    → parse_fields [] parts ≡ some found
    → parse_words (kind ∷ parts) ≡ message (record { type = kind; fields = found })
parse_words_found kind parts found h = ground (arith, h)

-- The line of a type and `key=value` fields, each behind a blank, is parsed into that type and the
-- map of the fields, where a later field replaces an earlier one of the same key. The blank is white
-- space and `=` is not, the type is not empty, no key is empty or has a `=`, and the type, the keys
-- and the values have no white space.
pub parse-spell :
    (u : Unicode) (kind : Text) (fs : Fields)
    → u.is_space 0x20 ≡ true
    → u.is_space 0x3D ≡ false
    → is_empty kind ≡ false
    → IsSolid u kind
    → All (λ f. IsField u f) fs
    → parse u (kind ++ spell fs) ≡ message (record { type = kind; fields = insert_all [] fs })
unfolding parse
parse-spell u kind fs blank solid ne s h =
    rw (words-trim_space u (kind ++ spell fs), words_spelled u blank solid kind fs ne s h)
      (parse_words_found kind (map part fs) (insert_all [] fs) (parse_fields_spelled u [] fs h))
