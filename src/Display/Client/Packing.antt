-- ===== src/Display/Client/Packing.antt =====
-- How the sending loop packs operations into datagrams.
use sun_ray2server.Prelude.{
  ℕ, ◌+◌, ◌≤◌, ◌<◌, ◌≡◌, ◌≢◌, ◌⊎◌, inl, inr, refl, sym, ap, ◌∙◌, ◌&&◌, List, [], ◌∷◌, ◌++◌, Option,
  none, some, length, length-append, flatten, All, ltb, ◌==◌, if◌then◌else◌, arith, Bool-cases,
}
use mathlib.Core.List.{append_assoc, append-nil}
use mathlib.Core.Path.{subst}
use sun_ray2server.Prelude.Bytes.{u16}
use sun_ray2server.Display.Client.{
  Env, Client, SendError, write_failed, send_packet, send_operations, datagram, and_then,
}

-- The datagrams that carry the payloads, numbered on from `seq`.
unfoldable pub datagrams : ℕ → List (List ℕ) → List (List ℕ)
datagrams seq [] = []
datagrams seq (p ∷ ps) = datagram (u16 (seq + 1)) p ∷ datagrams (u16 (seq + 1)) ps

-- The payloads of a run in which every write succeeds, from the groups of whole operations.
unfoldable pub groups : List (List ℕ) → List (List ℕ) → List (List (List ℕ))
groups group [] = if length (flatten group) == 0 then [] else group ∷ []
groups group (encoded ∷ rest) =
    let full = group ∷ groups (encoded ∷ []) rest in
    let more = groups (group ++ (encoded ∷ [])) rest in
    if ltb 0 (length (flatten group)) && ltb 1432 (length (flatten group) + length encoded)
    then full
    else more

abbrev pub payloads : List (List (List ℕ)) → List (List ℕ)
payloads [] = []
payloads (g ∷ gs) = flatten g ∷ payloads gs

flatten-snoc : (g : List (List ℕ)) (e : List ℕ) → flatten (g ++ (e ∷ [])) ≡ flatten g ++ e
flatten-snoc [] e = append-nil e
flatten-snoc (x ∷ g) e = rw (flatten-snoc g e, append_assoc)

nil_of_length : (xs : List ℕ) → length xs ≡ 0 → xs ≡ []
nil_of_length [] h = refl
nil_of_length (x ∷ xs) h = absurd (omega arith)

flatten-ne-nil :
    (group : List (List ℕ)) (op : List ℕ) → 0 < length op → flatten (group ++ (op ∷ [])) ≢ []
flatten-ne-nil group op h e =
    absurd
      (omega (arith, length-append (flatten group) op, ap length (sym (flatten-snoc group op) ∙ e)))

-- No operation is lost, repeated, split or moved by the grouping.
pub flatten-groups :
    (group ops : List (List ℕ))
    → All (λ op. 0 < length op) ops
    → (flatten group ≡ [] → group ≡ [])
    → flatten (groups group ops) ≡ group ++ ops
unfolding groups
flatten-groups group [] a z = elim (Bool-cases (length (flatten group) == 0)) [
  | inl e ↦ rw (e, append-nil) (sym (z (nil_of_length (flatten group) (ground arith))))
  | inr e ↦ rw e
]
flatten-groups group (op ∷ ops) (p, a) z =
    elim (Bool-cases
      (ltb 0 (length (flatten group)) && ltb 1432 (length (flatten group) + length op))) [
        | inl e ↦ rw e (
            ap (λ (t : List (List ℕ)). group ++ t)
              (flatten-groups (op ∷ []) ops a (λ q. absurd (flatten-ne-nil [] op p q))))
        | inr e ↦ rw e (
            flatten-groups (group ++ (op ∷ [])) ops a (λ q. absurd (flatten-ne-nil group op p q))
            ∙ append_assoc group (op ∷ []) ops)
      ]

-- No group is longer than a datagram's room.
pub groups-fit :
    (group ops : List (List ℕ))
    → All (λ op. length op ≤ 1432) ops
    → length (flatten group) ≤ 1432
    → All (λ g. (0 < length (flatten g)) × (length (flatten g) ≤ 1432)) (groups group ops)
unfolding groups
groups-fit group [] a h = ground arith
groups-fit group (op ∷ ops) (p, a) h =
    elim (Bool-cases
      (ltb 0 (length (flatten group)) && ltb 1432 (length (flatten group) + length op))) [
        | inl e ↦ rw e ((ground arith, h), groups-fit (op ∷ []) ops a (rw (append-nil op) p))
        | inr e ↦ rw e (
            groups-fit (group ++ (op ∷ [])) ops a
              (rw (flatten-snoc group op) (rw (length-append (flatten group) op) (ground arith))))
      ]

-- A send of one packet writes its datagram and succeeds, or fails and writes nothing.
pub send_packet_cases :
    (env : Env) (c : Client) (p : List ℕ)
    → let r = send_packet env c p in
      (r.1.packet_seq ≡ u16 (c.packet_seq + 1))
      × (((r.0 ≡ none) × (r.1.sent ≡ c.sent ++ (datagram (u16 (c.packet_seq + 1)) p ∷ [])))
          ⊎ ((r.0 ≡ some write_failed) × (r.1.sent ≡ c.sent)))
unfolding send_packet
send_packet_cases env c p = ground arith

-- What the socket saw of the payloads: all of them and success, or a proper prefix and the error of
-- the write that failed.
abbrev pub Delivery : Client → Option SendError × Client → List (List ℕ) → Type 0
Delivery c r ps =
    ((r.0 ≡ none) × (r.1.sent ≡ c.sent ++ datagrams c.packet_seq ps))
    ⊎ ((r.0 ≡ some write_failed)
        × (done : List (List ℕ)) × (p : List ℕ) × (rest : List (List ℕ)) × (ps ≡ done ++ (p ∷ rest))
        × (r.1.sent ≡ c.sent ++ datagrams c.packet_seq done))

Delivery-step :
    (c : Client) (p : List ℕ) (ps : List (List ℕ)) (r : Option SendError × Client)
    (k : Client → Option SendError × Client)
    → ((c' : Client) → Delivery c' (k c') ps)
    → r.1.packet_seq ≡ u16 (c.packet_seq + 1)
    → ((r.0 ≡ none) × (r.1.sent ≡ c.sent ++ (datagram (u16 (c.packet_seq + 1)) p ∷ [])))
      ⊎ ((r.0 ≡ some write_failed) × (r.1.sent ≡ c.sent))
    → Delivery c (and_then r k) (p ∷ ps)
unfolding datagrams
Delivery-step c p ps (none, c1) k h q (inl (_, s)) =
    let d = datagram (u16 (c.packet_seq + 1)) p in
    elim (h c1) [
      | inl (e1, s1) ↦ inl (
        e1,
        s1 ∙ rw (s, q) (append_assoc c.sent (d ∷ []) (datagrams (u16 (c.packet_seq + 1)) ps)),
      )
      | inr (e1, done, x, rest, eq, s1) ↦ inr (
        e1,
        p ∷ done,
        x,
        rest,
        ap (λ (t : List (List ℕ)). p ∷ t) eq,
        s1 ∙ rw (s, q) (append_assoc c.sent (d ∷ []) (datagrams (u16 (c.packet_seq + 1)) done)),
      )
    ]
Delivery-step c p ps (none, c1) k h q (inr (e, _)) = cc
Delivery-step c p ps (some x, c1) k h q (inl (e, _)) = cc
Delivery-step c p ps (some x, c1) k h q (inr (e, s)) =
    inr (e, [], p, ps, refl, s ∙ sym (append-nil c.sent))

send_packet-Delivery :
    (env : Env) (c : Client) (p : List ℕ) → Delivery c (send_packet env c p) (p ∷ [])
unfolding datagrams
send_packet-Delivery env c p = elim (send_packet_cases env c p).1 [
  | inl (e, s) ↦ inl (e, s)
  | inr (e, s) ↦ inr (e, [], p, [], refl, s ∙ sym (append-nil c.sent))
]

-- The loop delivers the payloads of its groups, up to the first write that fails.
pub send_operations-Delivery :
    (env : Env) (c : Client) (group ops : List (List ℕ))
    → Delivery c (send_operations env c (flatten group) ops) (payloads (groups group ops))
unfolding send_operations groups
send_operations-Delivery env c group [] = elim (Bool-cases (length (flatten group) == 0)) [
  | inl e ↦ rw (e, payloads) (inl (refl, unfold datagrams in sym (append-nil c.sent)))
  | inr e ↦ rw (e, payloads) (send_packet-Delivery env c (flatten group))
]
send_operations-Delivery env c group (op ∷ ops) =
    elim (Bool-cases
      (ltb 0 (length (flatten group)) && ltb 1432 (length (flatten group) + length op))) [
        | inl e ↦
            rw (e, payloads)
              (Delivery-step c (flatten group) (payloads (groups (op ∷ []) ops))
                (send_packet env c (flatten group)) (λ c'. send_operations env c' op ops)
                (λ c'.
                  subst
                    (λ t.
                      Delivery c' (send_operations env c' t ops) (payloads (groups (op ∷ []) ops)))
                    (append-nil op) (send_operations-Delivery env c' (op ∷ []) ops))
                (send_packet_cases env c (flatten group)).0
                (send_packet_cases env c (flatten group)).1)
        | inr e ↦
            rw (e, payloads)
              (subst
                (λ t.
                  Delivery c (send_operations env c t ops)
                    (payloads (groups (group ++ (op ∷ [])) ops)))
                (flatten-snoc group op) (send_operations-Delivery env c (group ++ (op ∷ [])) ops))
      ]
