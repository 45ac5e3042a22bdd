-- ===== src/Server/Pending.antt =====
-- A cancellation that a goroutine has before it is not lost.
use sun_ray2server.Prelude.{
  ℕ, zero, suc, ◌≡◌, ◌⊎◌, inl, inr, refl, List, [], ◌∷◌, ◌++◌, Option, none, some, get_elem?, set,
  Memᴰ, arith,
}
use mathlib.Core.Path.{subst}
use sun_ray2server.Server.State.{Setup, Action, Io, cancel}
use sun_ray2server.Server.Displays.{with_cancelled}
use sun_ray2server.Server.System.{System, Event, accept, turn, stop, exec, take_turn, perform}
use sun_ray2server.Server.Changes.{
  Core, core, Change, kept, cancelling, installed, entered, removed, cleared, exec-Change,
}

module _ {A : Type 0} where
  pub member_left : (x : A) (xs ys : List A) → Memᴰ x xs → Memᴰ x (xs ++ ys)
  member_left x [] ys m = elim m [ ]
  member_left x (y ∷ xs) ys (Memᴰ.head e) = Memᴰ.head e
  member_left x (y ∷ xs) ys (Memᴰ.tail m) = Memᴰ.tail (member_left x xs ys m)

  pub member_right : (x : A) (xs ys : List A) → Memᴰ x ys → Memᴰ x (xs ++ ys)
  member_right x [] ys m = m
  member_right x (y ∷ xs) ys m = Memᴰ.tail (member_right x xs ys m)

  pub member_cons : (x y : A) (xs : List A) → Memᴰ x (y ∷ xs) → (x ≡ y) ⊎ Memᴰ x xs
  member_cons x y xs (Memᴰ.head e) = inl e
  member_cons x y xs (Memᴰ.tail m) = inr m

-- A goroutine has the action before it.
abbrev pub Somewhere : Action → List (List Action) → Type 0
Somewhere x [] = ⊥
Somewhere x (g ∷ gs) = Memᴰ x g ⊎ Somewhere x gs

-- The context is cancelled, or a goroutine is about to cancel it.
abbrev pub IsDue : System → ℕ → Type 0
IsDue sys c = Memᴰ c sys.world.cancelled ⊎ Somewhere (cancel c) sys.goroutines

pub Somewhere-append :
    (x : Action) (gs hs : List (List Action)) → Somewhere x gs → Somewhere x (gs ++ hs)
Somewhere-append x [] hs m = elim m [ ]
Somewhere-append x (g ∷ gs) hs (inl m) = inl m
Somewhere-append x (g ∷ gs) hs (inr m) = inr (Somewhere-append x gs hs m)

-- A goroutine's first action is done, the others of all goroutines are left.
Somewhere-set :
    (x a : Action) (rest next : List Action) (gs : List (List Action)) (i : ℕ)
    → get_elem? gs i ≡ some (a ∷ rest)
    → Somewhere x gs
    → (x ≡ a) ⊎ Somewhere x (set gs i (next ++ rest))
Somewhere-set x a rest next [] i e m = elim m [ ]
Somewhere-set x a rest next (g ∷ gs) zero e (inl m) =
    let split : g ≡ a ∷ rest = cc in
    elim (member_cons x a rest (subst (λ l. Memᴰ x l) split m)) [
      | inl same ↦ inl same
      | inr n ↦ inr (inl (member_right x next rest n))
    ]
Somewhere-set x a rest next (g ∷ gs) zero e (inr m) = inr (inr m)
Somewhere-set x a rest next (g ∷ gs) (suc i) e (inl m) = inr (inl m)
Somewhere-set x a rest next (g ∷ gs) (suc i) e (inr m) =
    elim (Somewhere-set x a rest next gs i e m) [ inl e ↦ inl e | inr n ↦ inr (inr n) ]

pub Somewhere-next :
    (x : Action) (rest next : List Action) (gs : List (List Action)) (i : ℕ) (g : List Action)
    → get_elem? gs i ≡ some g
    → Memᴰ x next
    → Somewhere x (set gs i (next ++ rest))
Somewhere-next x rest next [] i g e m = absurd (ground (arith, e))
Somewhere-next x rest next (h ∷ gs) zero g e m = inl (member_left x next rest m)
Somewhere-next x rest next (h ∷ gs) (suc i) g e m = inr (Somewhere-next x rest next gs i g e m)

with_cancelled_keeps :
    (x : ℕ) (o : Option ℕ) (cs : List ℕ) → Memᴰ x cs → Memᴰ x (with_cancelled o cs)
with_cancelled_keeps x none cs m = m
with_cancelled_keeps x (some c) cs m = Memᴰ.tail m

change_keeps :
    (c d : Core) (next : List Action) (x : ℕ)
    → Change c d next
    → Memᴰ x c.cancelled
    → Memᴰ x d.cancelled
change_keeps c d next x (kept n) m = m
change_keeps c d next x (cancelling y n) m = Memᴰ.tail m
change_keeps c d next x (installed key a n cl gen) m = m
change_keeps c d next x (entered key a b r n at en) m =
    with_cancelled_keeps x a.session_context c.cancelled m
change_keeps c d next x (removed key) m = m
change_keeps c d next x cleared m = m

module _ (s : Setup) (sys : System) (c : ℕ) where
  exec_cancels :
      (io : Io) (a : Action) → cancel c ≡ a → Memᴰ c (exec s io a sys.world).world.cancelled
  unfolding exec
  exec_cancels io a e =
      subst (λ x. Memᴰ c (exec s io x sys.world).world.cancelled) e (Memᴰ.head refl)

  take_turn-IsDue :
      (i : ℕ) (io : Io) (g : Option (List Action))
      → get_elem? sys.goroutines i ≡ g
      → IsDue sys c
      → IsDue (take_turn s sys i io g) c
  take_turn-IsDue i io none e d = d
  take_turn-IsDue i io (some []) e d = d
  take_turn-IsDue i io (some (a ∷ rest)) e (inl m) =
      let o = exec s io a sys.world in
      inl (change_keeps (core sys.world) (core o.world) o.next c (exec-Change s sys.world io a) m)
  take_turn-IsDue i io (some (a ∷ rest)) e (inr m) =
      let o = exec s io a sys.world in
      elim (Somewhere-set (cancel c) a rest o.next sys.goroutines i e m) [
        | inl x ↦ inl (exec_cancels io a x)
        | inr n ↦ inr (
            Somewhere-append (cancel c) (set sys.goroutines i (o.next ++ rest)) (o.goroutine ∷ [])
              n)
      ]

  pub perform-IsDue : (e : Event) → IsDue sys c → IsDue (perform s e sys) c
  unfolding perform
  perform-IsDue (accept host lines) (inl m) = inl m
  perform-IsDue (accept host lines) (inr m) = inr (Somewhere-append (cancel c) sys.goroutines _ m)
  perform-IsDue (turn i io) d = take_turn-IsDue i io (get_elem? sys.goroutines i) refl d
  perform-IsDue stop (inl m) = inl m
  perform-IsDue stop (inr m) = inr (Somewhere-append (cancel c) sys.goroutines _ m)
