-- ===== src/Display/Client/Window.antt =====
-- The resend history: it holds a window of the latest operations, each under its sequence.
use sun_ray2server.Prelude.{
  ℕ, zero, suc, ◌+◌, ◌-◌, ◌%◌, ◌≤◌, ◌<◌, ◌≡◌, ◌≢◌, refl, ap, true, false, List, [], ◌∷◌, length,
  All, ltb, ◌==◌, arith, Bool-cases, inl, inr,
}
use sun_ray2server.Prelude.Bytes.{u16, u32, get_u16}
use sun_ray2server.Display.Sequence.{IsU32}
use sun_ray2server.Display.Client.{Client, History, delete, insert, remember, max_history_size}

-- One operation earlier, in uint32.
abbrev pub prev : ℕ → ℕ
prev s = (s + 4294967295) % 4294967296

-- The `k` sequences that end in `s`, latest first.
unfoldable pub countdown : ℕ → ℕ → List ℕ
countdown s zero = []
countdown s (suc k) = s ∷ countdown (prev s) k

abbrev pub keys : History → List ℕ
keys [] = []
keys ((j, v) ∷ m) = j ∷ keys m

-- The operation was filed under the sequence that its header carries.
abbrev pub Numbered : ℕ × List ℕ → Type 0
Numbered e = get_u16 e.1 2 ≡ u16 e.0

-- A history of `size` operations ending in `seq`.
pub record IsWindow (seq size : ℕ) (m : History) : Type 0 where
  pub contiguous : keys m ≡ countdown seq size
  pub numbered : All Numbered m

==_true : (i j : ℕ) → i ≡ j → (i == j) ≡ true
==_true i j h = ground arith

==_false : (i j : ℕ) → i ≢ j → (i == j) ≡ false
==_false i j h = ground arith

cons_keys :
    (j s k : ℕ) (v : List ℕ) (m : History)
    → keys ((j, v) ∷ m) ≡ countdown s (suc k)
    → (j ≡ s) × (keys m ≡ countdown (prev s) k)
unfolding countdown
cons_keys j s k v m e = (cc, cc)

cons_countdown :
    (i s k : ℕ) (ks : List ℕ) → i ≡ s → ks ≡ countdown (prev s) k → i ∷ ks ≡ countdown s (suc k)
unfolding countdown
cons_countdown i s k ks p q = cc

length-keys : (m : History) → length (keys m) ≡ length m
length-keys [] = refl
length-keys ((j, v) ∷ m) = ap suc (length-keys m)

length-countdown : (s k : ℕ) → length (countdown s k) ≡ k
unfolding countdown
length-countdown s zero = refl
length-countdown s (suc k) = ap suc (length-countdown (prev s) k)

length_window : (s k : ℕ) (m : History) → keys m ≡ countdown s k → length m ≡ k
length_window s k m e = omega (arith, length-keys m, length-countdown s k, ap (length {A = ℕ}) e)

delete-All : (P : ℕ × List ℕ → Type 0) (j : ℕ) (m : History) → All P m → All P (delete j m)
unfolding delete
delete-All P j [] a = tt
delete-All P j ((i, v) ∷ m) (p, a) = ground (arith, delete-All P j m a)

-- `j` lies at least `k` before or one past the window's end, so it is no key of it.
delete_absent :
    (j s k : ℕ) (m : History)
    → IsU32 s
    → IsU32 j
    → keys m ≡ countdown s k
    → k ≤ (s + 4294967296 - j) % 4294967296
    → delete j m ≡ m
unfolding delete
delete_absent j s k [] hs hj e h = refl
delete_absent j s zero ((i, v) ∷ m) hs hj e h = unfold countdown in cc
delete_absent j s (suc k) ((i, v) ∷ m) hs hj e h =
    let (p, q) = cons_keys i s k v m e in
    let ih = delete_absent j (prev s) k m (omega arith) hj q (omega arith) in ground (arith, ih)

-- Deleting the earliest key of a window.
delete_last :
    (j s k : ℕ) (m : History)
    → IsU32 s
    → k < 4294967296
    → keys m ≡ countdown s (suc k)
    → j ≡ (s + 4294967296 - k) % 4294967296
    → keys (delete j m) ≡ countdown s k
unfolding delete
delete_last j s k [] hs hk e h = unfold countdown in cc
delete_last j s zero ((i, v) ∷ []) hs hk e h =
    let (p, q) = cons_keys i s zero v [] e in
    rw (==_true i j (omega arith)) (unfold countdown in refl)
delete_last j s zero ((i, v) ∷ (i', v') ∷ m) hs hk e h = unfold countdown in cc
delete_last j s (suc k) ((i, v) ∷ m) hs hk e h =
    let (p, q) = cons_keys i s (suc k) v m e in
    let ih = delete_last j (prev s) k m (omega arith) (omega arith) q (omega arith) in
    rw (==_false i j (omega arith)) (cons_countdown i s k (keys (delete j m)) p ih)

-- Filing operation `seq` behind a window that ends just before it keeps a window that ends in `seq`,
-- if the map then holds at most 8192 operations;
file_small :
    (seq s k : ℕ) (v : List ℕ) (m : History)
    → IsU32 s
    → k ≤ max_history_size
    → IsWindow s k m
    → seq ≡ u32 (s + 1)
    → Numbered (seq, v)
    → IsWindow seq (suc k) (insert seq v m)
unfolding insert
file_small seq s k v m hs hk w e n =
    let absent : delete seq m ≡ m =
      delete_absent seq s k m hs (omega arith) w.contiguous (omega arith) in
    let before : prev seq ≡ s = omega arith in
    rw absent (record {
      contiguous = cons_countdown seq seq k (keys m) refl (rw before w.contiguous);
      numbered = (n, w.numbered);
    })

-- if it holds more, deleting the sequence 8192 before brings it back to 8192.
file_full :
    (seq : ℕ) (m : History)
    → IsU32 seq
    → IsWindow seq 8193 m
    → IsWindow seq 8192 (delete ((seq + 4294967296 - max_history_size) % 4294967296) m)
file_full seq m h w =
    let oldest = (seq + 4294967296 - max_history_size) % 4294967296 in
    record {
      contiguous = delete_last oldest seq 8192 m h (omega arith) w.contiguous refl;
      numbered = delete-All Numbered oldest m w.numbered;
    }

-- Filing keeps a window of at most 8192 operations, which ends in the sequence filed.
pub remember-IsWindow :
    (c : Client) (s k : ℕ) (v : List ℕ)
    → IsU32 s
    → k ≤ max_history_size
    → IsWindow s k c.history
    → c.op_seq ≡ u32 (s + 1)
    → Numbered (c.op_seq, v)
    → (k' : ℕ) × (k' ≤ max_history_size) × (0 < k') × IsWindow c.op_seq k' (remember c v).history
unfolding remember
remember-IsWindow c s k v hs hk w e n =
    let small = file_small c.op_seq s k v c.history hs hk w e n in
    let size = length_window c.op_seq (suc k) (insert c.op_seq v c.history) small.contiguous in
    elim (Bool-cases (ltb max_history_size (length (insert c.op_seq v c.history)))) [
      | inl full ↦
          let last : k ≡ 8192 = ground arith in
          rw full
            (8192, omega arith, omega arith, file_full c.op_seq _ (omega arith) (rw last at small))
      | inr room ↦ rw room (suc k, ground arith, omega arith, small)
    ]
