-- ===== src/BigEndian/Size.antt =====
-- How many bytes `bytesRequired` counts (libdevcore/CommonData.h).
use mvis_tokenminer.Prelude.{ℕ, zero, suc, ◌*◌, ◌/◌, ◌^◌, ◌≤◌, ◌<◌, ◌≡◌, ◌↔◌, arith, lt_wf}
use mvis_tokenminer.BigEndian.{bytes_required_acc, bytes_required}
use mathlib.Core.WellFounded.{Acc}
use native.Mathlib.Nat.{pow-suc, pow-le-pow_right, le_trans, le_antisymm}

pub pow_byte : (k : ℕ) → 256 ^ suc k ≡ 256 * 256 ^ k
pow_byte k = omega (arith, pow-suc 256 k)

lt-pow-bytes_required_acc : (n : ℕ) (w : Acc ◌<◌ n) → n < 256 ^ bytes_required_acc n w
unfolding bytes_required_acc
lt-pow-bytes_required_acc n (Acc.intro _ smaller) = grind (
  arith,
  pow_byte,
  λ (p : n / 256 < n). lt-pow-bytes_required_acc (n / 256) (smaller (n / 256) p),
)

bytes_required_acc-le : (k n : ℕ) (w : Acc ◌<◌ n) → n < 256 ^ k → bytes_required_acc n w ≤ k
unfolding bytes_required_acc
bytes_required_acc-le zero n (Acc.intro _ smaller) h = ground arith
bytes_required_acc-le (suc k) n (Acc.intro _ smaller) h = grind (
  arith,
  pow_byte k,
  λ (p : n / 256 < n). bytes_required_acc-le k (n / 256) (smaller (n / 256) p),
)

-- The number fits in the bytes counted.
pub lt-pow-bytes_required : (n : ℕ) → n < 256 ^ bytes_required n
unfolding bytes_required
lt-pow-bytes_required n = lt-pow-bytes_required_acc n (lt_wf.apply n)

pub bytes_required-le : (n k : ℕ) → n < 256 ^ k → bytes_required n ≤ k
unfolding bytes_required
bytes_required-le n k h = bytes_required_acc-le k n (lt_wf.apply n) h

-- `bytesRequired` is the least width: a number fits in `k` bytes exactly when the count is at most
-- `k`.
pub bytes_required-le_iff : (n k : ℕ) → (n < 256 ^ k) ↔ (bytes_required n ≤ k)
bytes_required-le_iff n k = (
  bytes_required-le n k,
  λ h. le_trans (lt-pow-bytes_required n) (pow-le-pow_right (omega arith) h),
)

pub bytes_required-zero : bytes_required 0 ≡ 0
bytes_required-zero = omega (arith, bytes_required-le 0 0)

pub bytes_required-pos : (n : ℕ) → 0 < n → bytes_required n ≡ suc (bytes_required (n / 256))
bytes_required-pos n h =
    le_antisymm
      (bytes_required-le n (suc (bytes_required (n / 256)))
        (omega (arith, pow_byte (bytes_required (n / 256)), lt-pow-bytes_required (n / 256))))
      (suc_le (bytes_required n) (lt-pow-bytes_required n))
  where
    suc_le : (k : ℕ) → n < 256 ^ k → suc (bytes_required (n / 256)) ≤ k
    suc_le zero lt = absurd (omega arith)
    suc_le (suc k) lt =
        omega (arith, pow_byte k, bytes_required-le (n / 256) k (omega (arith, pow_byte k)))

pub pos_of_bytes_required : (n k : ℕ) → bytes_required n ≡ suc k → 0 < n
pos_of_bytes_required zero k h = absurd (omega (arith, bytes_required-zero))
pos_of_bytes_required (suc n) k h = omega arith
