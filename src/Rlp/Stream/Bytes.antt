-- ===== src/Rlp/Stream/Bytes.antt =====
-- What the byte writers of `RLPStream` leave in the buffer (libdevcore/RLP.h, RLP.cpp).
use mvis_tokenminer.Prelude.{ℕ, zero, suc, ◌+◌, ◌-◌, ◌/◌, ◌%◌, ◌^◌, ◌<◌, ◌≡◌, refl, ap, ◌∙◌, sym}
use mvis_tokenminer.Prelude.{List, [], ◌∷◌, ◌++◌, append-nil, append_assoc, arith, lt_wf}
use mvis_tokenminer.Prelude.{length, set, replicate, length-append, length-replicate, split_last}
use mvis_tokenminer.BigEndian.{bytes_required, shift_shrinks}
use mvis_tokenminer.BigEndian.Size.{
  bytes_required-pos, lt-pow-bytes_required, pos_of_bytes_required,
}
use mvis_tokenminer.BigEndian.RoundTrip.{be}
use mvis_tokenminer.Rlp.Stream.{write_int_acc, write_int, push_int}
use mathlib.Core.WellFounded.{Acc}
use mathlib.Core.Logic.{dif_pos}
use native.Mathlib.Decide.{dec_lt}
use native.Mathlib.Bridge.{le_prop}

pub set-append :
    (xs : List ℕ) (y v : ℕ) (rest : List ℕ)
    → set (xs ++ (y ∷ rest)) (length xs) v ≡ xs ++ (v ∷ rest)
set-append [] y v rest = refl
set-append (x ∷ xs) y v rest = ap (λ t. x ∷ t) (set-append xs y v rest)

module _ (n : ℕ) (pos : ℕ) (out : List ℕ) where
  write_int_acc_done : (w : Acc ◌<◌ n) → n ≡ 0 → write_int_acc n w pos out ≡ out
  unfolding write_int_acc
  write_int_acc_done (Acc.intro _ smaller) h = grind arith

  write_int_acc_more :
      (w : Acc ◌<◌ n)
      → 0 < n
      → (v : Acc ◌<◌ (n / 256)) × (write_int_acc n w pos out
          ≡ write_int_acc (n / 256) v (pos - 1) (set out (pos - 1) (n % 256)))
  unfolding write_int_acc
  write_int_acc_more (Acc.intro _ smaller) h =
      (smaller (n / 256) (shift_shrinks n h), dif_pos (dec_lt 0 n) le_prop h _ _)

set_last :
    (pre front rest : List ℕ) (y v k : ℕ)
    → length front ≡ k
    → set (pre ++ ((front ++ (y ∷ [])) ++ rest)) (length pre + suc k - 1) v
      ≡ pre ++ (front ++ (v ∷ rest))
set_last pre front rest y v k h =
    rw (append_assoc front (y ∷ []) rest, ← append_assoc pre front (y ∷ rest), place)
      (set-append (pre ++ front) y v rest ∙ append_assoc pre front (v ∷ rest))
  where
    place : length pre + suc k - 1 ≡ length (pre ++ front)
    place = omega (arith, length-append pre front)

-- The bytes of `n` fill the `k` places before `rest`, whatever stood there.
write_int_acc-be :
    (k n : ℕ) (w : Acc ◌<◌ n) (pre junk rest : List ℕ)
    → bytes_required n ≡ k
    → length junk ≡ k
    → write_int_acc n w (length pre + k) (pre ++ (junk ++ rest)) ≡ pre ++ (be k n ++ rest)
write_int_acc-be zero n w pre [] rest hk hj =
    write_int_acc_done n (length pre + 0) (pre ++ rest) w
      (omega (arith, lt-pow-bytes_required n, ap (λ (t : ℕ). 256 ^ t) hk))
write_int_acc-be zero n w pre (x ∷ junk) rest hk hj = absurd (omega arith)
write_int_acc-be (suc k) n w pre junk rest hk hj =
    let (front, last, e, l) = split_last junk k hj in
    let positive = pos_of_bytes_required n k hk in
    let (v, more) = write_int_acc_more n (length pre + suc k) (pre ++ (junk ++ rest)) w positive in
    let place : length pre + suc k - 1 ≡ length pre + k = omega arith in
    let wrote = rw (← e) at (set_last pre front rest last (n % 256) k l) in
    more
    ∙ ap (write_int_acc (n / 256) v (length pre + suc k - 1)) wrote
    ∙ ap (λ p. write_int_acc (n / 256) v p (pre ++ (front ++ (n % 256 ∷ rest)))) place
    ∙ write_int_acc-be k (n / 256) v pre front (n % 256 ∷ rest)
        (omega (arith, bytes_required-pos n positive)) l
    ∙ ap (λ t. pre ++ t) (sym (append_assoc (be k (n / 256)) (n % 256 ∷ []) rest))

-- The bytes of `n` fill a gap of the width that `bytesRequired` found.
pub write_int-be :
    (n : ℕ) (pre junk rest : List ℕ)
    → length junk ≡ bytes_required n
    → write_int n (length pre + bytes_required n) (pre ++ (junk ++ rest))
      ≡ pre ++ (be (bytes_required n) n ++ rest)
unfolding write_int
write_int-be n pre junk rest h =
    write_int_acc-be (bytes_required n) n (lt_wf.apply n) pre junk rest refl h

-- `pushInt`, given the width that `bytesRequired` found, appends the big-endian bytes.
pub push_int-be :
    (n : ℕ) (out : List ℕ) → push_int n (bytes_required n) out ≡ out ++ be (bytes_required n) n
unfolding push_int
push_int-be n out =
    ap (λ t. write_int n (length out + bytes_required n) (out ++ t)) (sym (append-nil _))
    ∙ write_int-be n out (replicate (bytes_required n) 0) [] (length-replicate _ 0)
    ∙ rw append-nil
