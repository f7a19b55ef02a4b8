-- ===== src/Client/MintData.antt =====
-- The data of the call of mint (ethminer/FarmClient.h: submitWorkSolo).
use mvis_tokenminer.Prelude.{ℕ, ◌-◌, ◌≤◌, ◌≡◌, refl, ap, ◌∙◌, arith, List, [], ◌∷◌, ◌++◌}
use mvis_tokenminer.Prelude.{append-nil, take, length, All, All-append}
use mvis_tokenminer.Hex.{IsByte, to_hex, pad_left, from_hex, dont_throw, read_bytes}
use mvis_tokenminer.Hex.RoundTrip.{digits, to_hex_loop-digits, length-digits, from_hex-prefixed}
use mvis_tokenminer.Client.{pad_right, mint_text, mint_data}

digits-append : (xs ys : List ℕ) → digits (xs ++ ys) ≡ digits xs ++ digits ys
digits-append [] ys = refl
digits-append (x ∷ xs) ys = rw (digits-append xs ys) refl

-- The first ten characters of a prefixed text are the prefix and four bytes.
take-digits : (bytes : List ℕ) → 4 ≤ length bytes → take 8 (digits bytes) ≡ digits (take 4 bytes)
take-digits [] h = absurd (omega arith)
take-digits (a ∷ []) h = absurd (omega arith)
take-digits (a ∷ b ∷ []) h = absurd (omega arith)
take-digits (a ∷ b ∷ c ∷ []) h = absurd (omega arith)
take-digits (a ∷ b ∷ c ∷ d ∷ rest) h = refl

take-IsByte : (bytes : List ℕ) → 4 ≤ length bytes → All IsByte bytes → All IsByte (take 4 bytes)
take-IsByte [] h k = absurd (omega arith)
take-IsByte (a ∷ []) h k = absurd (omega arith)
take-IsByte (a ∷ b ∷ []) h k = absurd (omega arith)
take-IsByte (a ∷ b ∷ c ∷ []) h k = absurd (omega arith)
take-IsByte (a ∷ b ∷ c ∷ d ∷ rest) h (ka, (kb, (kc, (kd, k)))) = (ka, (kb, (kc, (kd, tt))))

wide_digits : (bytes : List ℕ) → length bytes ≡ 32 → 64 - length (digits bytes) ≡ 0
wide_digits bytes h = omega (arith, h, length-digits bytes)

pad_left-wide : (bytes : List ℕ) → length bytes ≡ 32 → pad_left 64 (digits bytes) ≡ digits bytes
unfolding pad_left
pad_left-wide bytes h = rw (wide_digits bytes h) refl

pad_right-wide : (bytes : List ℕ) → length bytes ≡ 32 → pad_right 64 (digits bytes) ≡ digits bytes
unfolding pad_right
pad_right-wide bytes h = rw (wide_digits bytes h, append-nil) refl

mint_text-digits :
    (selector solution hash : List ℕ)
    → All IsByte selector
    → All IsByte solution
    → All IsByte hash
    → 4 ≤ length selector
    → length solution ≡ 32
    → length hash ≡ 32
    → mint_text selector solution hash
      ≡ b'0' ∷ b'x' ∷ digits (take 4 selector ++ (solution ++ hash))
unfolding mint_text to_hex
mint_text-digits selector solution hash a b c la lb lc =
    rw
      (
        to_hex_loop-digits selector a,
        to_hex_loop-digits solution b,
        to_hex_loop-digits hash c,
        pad_left-wide solution lb,
        pad_right-wide hash lc,
        take-digits selector la,
        digits-append (take 4 selector) (solution ++ hash),
        digits-append solution hash,
      )
      refl

-- The call's data is the first four bytes of the hash of the signature of mint, then the nonce, then
-- the digest, if each of the three is 32 bytes.
pub mint_data_lem :
    (selector solution hash : List ℕ)
    → All IsByte selector
    → All IsByte solution
    → All IsByte hash
    → length selector ≡ 32
    → length solution ≡ 32
    → length hash ≡ 32
    → mint_data selector solution hash ≡ take 4 selector ++ (solution ++ hash)
unfolding mint_data
mint_data_lem selector solution hash a b c la lb lc =
    let enough : 4 ≤ length selector = omega (arith, la) in
    let bytes =
      All-append IsByte (take 4 selector) (solution ++ hash) (take-IsByte selector enough a)
        (All-append IsByte solution hash b c) in
    let read =
      ap (λ s. from_hex s dont_throw) (mint_text-digits selector solution hash a b c enough lb lc)
      ∙ from_hex-prefixed (take 4 selector ++ (solution ++ hash)) dont_throw bytes in
    ap read_bytes read
