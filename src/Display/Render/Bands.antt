-- ===== src/Display/Render/Bands.antt =====
-- The bands of a picture keep every pixel.
use sun_ray2server.Prelude.{
  suc, ◌≡◌, ◌⊎◌, inl, inr, refl, sym, ap, ◌∙◌, true, ◌||◌, List, [], ◌∷◌, ◌++◌, map, if◌then◌else◌,
  take, drop, length, All, Bool-cases, if_true, if_false, All-map, All-append, take-append,
  take_all, drop-append, length-append, arith,
}
use mathlib.Core.Path.{subst}
use mathlib.Core.List.{append_assoc}
use sun_ray2server.Display.Render.Pixels.{
  Rgba, same_rgba, rgba_less, ScanlineKind, scanline_rgb, scanline_fill, scanline_bi_color,
  ScanlineEncoding, bi_color, scan_two, scan_one, classify_scanline, compatible_kinds,
  compatible_scanlines, Band, grow_band, merge_scanlines,
}

-- What the terminal draws for a pixel: the colour of a Fill, one of the two colours of a Bitmap, whose
-- bit is set where the pixel has the second, or the pixel itself.
abbrev pub drawn_as : ScanlineKind → Rgba → Rgba → Rgba → Rgba
drawn_as scanline_rgb a b p = p
drawn_as scanline_fill a b p = a
drawn_as scanline_bi_color a b p = if same_rgba p b then b else a

abbrev pub drawn : ScanlineEncoding → Rgba → Rgba
drawn e p = drawn_as e.kind e.color0 e.color1 p

-- The lines as the bands draw them.
abbrev pub drawn_bands : List Band → List (List Rgba) → List (List Rgba)
drawn_bands [] lines = []
drawn_bands (b ∷ bs) lines =
    map (λ line. map (λ p. drawn b.encoding p) line) (take b.count lines)
    ++ drawn_bands bs (drop b.count lines)

same_rgba_iff : (a b : Rgba) → same_rgba a b ≡ true → a ≡ b
unfolding same_rgba
same_rgba_iff a b h =
    let e : (a.red ≡ b.red) × (a.green ≡ b.green) × (a.blue ≡ b.blue) × (a.alpha ≡ b.alpha) =
      ground (arith, h) in
    λ i. record { red = e.0 i; green = e.1 i; blue = e.2 i; alpha = e.3 i }

same_rgba_self : (a : Rgba) → same_rgba a a ≡ true
unfolding same_rgba
same_rgba_self a = ground arith

abbrev Keeps : ScanlineEncoding → List Rgba → Type 0
Keeps e line = All (λ p. drawn e p ≡ p) line

abbrev IsOneOf : Rgba → Rgba → Rgba → Type 0
IsOneOf a b p = (p ≡ a) ⊎ (p ≡ b)

one-of-cases : (a b p : Rgba) → (same_rgba p a || same_rgba p b) ≡ true → IsOneOf a b p
one-of-cases a b p h = elim (Bool-cases (same_rgba p a)) [
  | inl e ↦ inl (same_rgba_iff p a e)
  | inr e ↦ inr (same_rgba_iff p b (ground (arith, h, e)))
]

-- The encoding has the two colours in one of the orders.
abbrev HasColors : ScanlineEncoding → Rgba → Rgba → Type 0
HasColors e a b = (e ≡ bi_color a b) ⊎ (e ≡ bi_color b a)

scan_two-cases :
    (a b : Rgba) (ps : List Rgba)
    → ((scan_two a b ps).kind ≡ scanline_rgb)
      ⊎ (HasColors (scan_two a b ps) a b × All (λ p. IsOneOf a b p) ps)
unfolding scan_two
scan_two-cases a b [] = elim (Bool-cases (rgba_less b a)) [
  | inl e ↦ inr (inr (ground (arith, e)), tt)
  | inr e ↦ inr (inl (ground (arith, e)), tt)
]
scan_two-cases a b (p ∷ ps) = elim (Bool-cases (same_rgba p a || same_rgba p b)) [
  | inr e ↦ inl (ground (arith, e))
  | inl e ↦ elim (scan_two-cases a b ps) [
    | inl k ↦ inl (ground (arith, e, k))
    | inr (c, h) ↦
        inr (subst (λ x. HasColors x a b) (sym (if_true _ _ _ e)) c, (one-of-cases a b p e, h))
  ]
]

drawn-bi_color : (a b p : Rgba) → IsOneOf a b p → drawn (bi_color a b) p ≡ p
drawn-bi_color a b p o = elim (Bool-cases (same_rgba p b)) [
  | inl e ↦ if_true _ _ _ e ∙ sym (same_rgba_iff p b e)
  | inr e ↦ elim o [
    | inl q ↦ if_false _ _ _ e ∙ sym q
    | inr q ↦ absurd (ground (arith, e, subst (λ x. same_rgba p x ≡ true) q (same_rgba_self p)))
  ]
]

swap : (a b p : Rgba) → IsOneOf a b p → IsOneOf b a p
swap a b p (inl e) = inr e
swap a b p (inr e) = inl e

drawn-two : (e : ScanlineEncoding) (a b p : Rgba) → HasColors e a b → IsOneOf a b p → drawn e p ≡ p
drawn-two e a b p (inl c) o = subst (λ x. drawn x p ≡ p) (sym c) (drawn-bi_color a b p o)
drawn-two e a b p (inr c) o =
    subst (λ x. drawn x p ≡ p) (sym c) (drawn-bi_color b a p (swap a b p o))

drawn-rgb : (e : ScanlineEncoding) (p : Rgba) → e.kind ≡ scanline_rgb → drawn e p ≡ p
drawn-rgb e p k = subst (λ x. drawn_as x e.color0 e.color1 p ≡ p) (sym k) refl

rgb-Keeps : (e : ScanlineEncoding) (ps : List Rgba) → e.kind ≡ scanline_rgb → Keeps e ps
rgb-Keeps e [] k = tt
rgb-Keeps e (p ∷ ps) k = (drawn-rgb e p k, rgb-Keeps e ps k)

scan_two-Keeps :
    (a b : Rgba) (ps : List Rgba)
    → (drawn (scan_two a b ps) a ≡ a) × (drawn (scan_two a b ps) b ≡ b) × Keeps (scan_two a b ps) ps
scan_two-Keeps a b ps =
    let e = scan_two a b ps in
    elim (scan_two-cases a b ps) [
      | inl k ↦ (drawn-rgb e a k, drawn-rgb e b k, rgb-Keeps e ps k)
      | inr (c, h) ↦ (
        drawn-two e a b a c (inl refl),
        drawn-two e a b b c (inr refl),
        All-map (λ p o. drawn-two e a b p c o) ps h,
      )
    ]

scan_one-Keeps :
    (a : Rgba) (ps : List Rgba) → (drawn (scan_one a ps) a ≡ a) × Keeps (scan_one a ps) ps
unfolding scan_one
scan_one-Keeps a [] = (refl, tt)
scan_one-Keeps a (p ∷ ps) = elim (Bool-cases (same_rgba p a)) [
  | inl e ↦
      let (own, others) = scan_one-Keeps a ps in
      subst (λ x. (drawn x a ≡ a) × Keeps x (p ∷ ps)) (sym (if_true _ _ _ e))
        (own, (subst (λ q. drawn (scan_one a ps) q ≡ q) (sym (same_rgba_iff p a e)) own, others))
  | inr e ↦
      let (own, second, others) = scan_two-Keeps a p ps in
      subst (λ x. (drawn x a ≡ a) × Keeps x (p ∷ ps)) (sym (if_false _ _ _ e))
        (own, (second, others))
]

classify_scanline-Keeps : (line : List Rgba) → Keeps (classify_scanline line) line
unfolding classify_scanline
classify_scanline-Keeps [] = tt
classify_scanline-Keeps (p ∷ ps) = scan_one-Keeps p ps

compatible_drawn :
    (k l : ScanlineKind) (e f : ScanlineEncoding) (p : Rgba)
    → compatible_kinds k l e f ≡ true
    → drawn_as k e.color0 e.color1 p ≡ drawn_as l f.color0 f.color1 p
compatible_drawn scanline_rgb scanline_rgb e f p h = refl
compatible_drawn scanline_fill scanline_fill e f p h = same_rgba_iff e.color0 f.color0 h
compatible_drawn scanline_bi_color scanline_bi_color e f p h =
    let c0 = same_rgba_iff e.color0 f.color0 (ground (arith, h)) in
    let c1 = same_rgba_iff e.color1 f.color1 (ground (arith, h)) in
    λ i. drawn_as scanline_bi_color (c0 i) (c1 i) p
compatible_drawn scanline_rgb scanline_fill e f p h = absurd (ground (arith, h))
compatible_drawn scanline_rgb scanline_bi_color e f p h = absurd (ground (arith, h))
compatible_drawn scanline_fill scanline_rgb e f p h = absurd (ground (arith, h))
compatible_drawn scanline_fill scanline_bi_color e f p h = absurd (ground (arith, h))
compatible_drawn scanline_bi_color scanline_rgb e f p h = absurd (ground (arith, h))
compatible_drawn scanline_bi_color scanline_fill e f p h = absurd (ground (arith, h))

compatible-Keeps :
    (e f : ScanlineEncoding) (ps : List Rgba)
    → compatible_scanlines e f ≡ true
    → Keeps f ps
    → Keeps e ps
unfolding compatible_scanlines
compatible-Keeps e f ps h k = All-map (λ p q. compatible_drawn e.kind f.kind e f p h ∙ q) ps k

map-Keeps : (e : ScanlineEncoding) (ps : List Rgba) → Keeps e ps → map (λ p. drawn e p) ps ≡ ps
map-Keeps e [] k = refl
map-Keeps e (p ∷ ps) (q, k) = λ i. q i ∷ map-Keeps e ps k i

lines_of-Keeps :
    (e : ScanlineEncoding) (lines : List (List Rgba))
    → All (λ line. Keeps e line) lines
    → map (λ line. map (λ p. drawn e p) line) lines ≡ lines
lines_of-Keeps e [] k = refl
lines_of-Keeps e (line ∷ lines) (q, k) = λ i. map-Keeps e line q i ∷ lines_of-Keeps e lines k i

abbrev lines_of : ScanlineEncoding → List (List Rgba) → List (List Rgba)
lines_of e lines = map (λ line. map (λ p. drawn e p) line) lines

band-drawn :
    (e : ScanlineEncoding) (taken rest : List (List Rgba)) (bs : List Band)
    → All (λ line. Keeps e line) taken
    → drawn_bands bs rest ≡ rest
    → drawn_bands (record { encoding = e; count = length taken } ∷ bs) (taken ++ rest)
      ≡ taken ++ rest
band-drawn e taken rest bs k h =
    let front : lines_of e (take (length taken) (taken ++ rest)) ≡ taken =
      ap (λ l. lines_of e l)
        (take-append (length taken) taken rest (omega arith)
          ∙ take_all (length taken) taken (omega arith))
      ∙ lines_of-Keeps e taken k in
    let back : drawn_bands bs (drop (length taken) (taken ++ rest)) ≡ rest =
      ap (λ l. drawn_bands bs l) (drop-append (length taken) taken rest refl) ∙ h in
    λ i. front i ++ back i

-- A band that has taken the lines `taken`, with `lines` still to come.
grow_band-drawn :
    (e : ScanlineEncoding) (taken lines : List (List Rgba))
    → All (λ line. Keeps e line) taken
    → drawn_bands
        (grow_band e (length taken) (map (λ line. classify_scanline line) lines))
        (taken ++ lines)
      ≡ taken ++ lines
unfolding grow_band
grow_band-drawn e taken [] k = band-drawn e taken [] [] k refl
grow_band-drawn e taken (line ∷ lines) k =
    let f = classify_scanline line in
    let codes : List ScanlineEncoding = map (λ l. classify_scanline l) lines in
    elim (Bool-cases (compatible_scanlines e f)) [
      | inl c ↦
          let mine = compatible-Keeps e f line c (classify_scanline-Keeps line) in
          let longer =
            grow_band-drawn e (taken ++ (line ∷ [])) lines
              (All-append (λ l. Keeps e l) taken (line ∷ []) k (mine, tt)) in
          let grown = taken ++ (line ∷ []) in
          let size : length grown ≡ suc (length taken) =
            omega (arith, length-append taken (line ∷ [])) in
          ap (λ bs. drawn_bands bs (taken ++ (line ∷ lines))) (if_true _ _ _ c)
          ∙ subst (λ t. drawn_bands (grow_band e (suc (length taken)) codes) t ≡ t)
              (append_assoc taken (line ∷ []) lines)
              (subst (λ n. drawn_bands (grow_band e n codes) (grown ++ lines) ≡ grown ++ lines) size
                longer)
      | inr c ↦
          ap (λ bs. drawn_bands bs (taken ++ (line ∷ lines))) (if_false _ _ _ c)
          ∙ band-drawn e taken (line ∷ lines) (grow_band f 1 codes) k
              (grow_band-drawn f (line ∷ []) lines (classify_scanline-Keeps line, tt))
    ]

-- Drawing each line of each band as the band is encoded, with the colour of a Fill, with one of the two
-- colours of a Bitmap or with the pixel itself, gives back the lines of the picture, all of them and in
-- order.
pub merge_scanlines-drawn :
    (lines : List (List Rgba))
    → drawn_bands (merge_scanlines (map (λ line. classify_scanline line) lines)) lines ≡ lines
unfolding merge_scanlines
merge_scanlines-drawn [] = refl
merge_scanlines-drawn (line ∷ lines) =
    grow_band-drawn (classify_scanline line) (line ∷ []) lines (classify_scanline-Keeps line, tt)
