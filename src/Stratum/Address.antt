-- ===== src/Stratum/Address.antt =====
-- Reading the address of a pool (libstratum/EthStratumClient.cpp: connectStratum).
use mvis_tokenminer.Prelude.{ℕ, ◌≡◌, refl, List, [], ◌∷◌, ◌++◌}
use mvis_tokenminer.Prelude.{none, some, false, ◌==◌, All}
use mvis_tokenminer.Stratum.{host_and_port, after_scheme, split_at_colon, behind_mark}

-- The text has no colon.
abbrev pub IsPlain : List ℕ → Type 0
IsPlain = All (λ c. (c == b':') ≡ false)

no_mark : (c : ℕ) (rest : List ℕ) → (c == b':') ≡ false → behind_mark (c ∷ rest) ≡ none
no_mark c [] h = refl
no_mark c (b ∷ []) h = refl
no_mark c (b ∷ d ∷ rest) h = rw h refl

after_scheme-plain :
    (scheme rest : List ℕ)
    → IsPlain scheme
    → after_scheme (scheme ++ (b':' ∷ b'/' ∷ b'/' ∷ rest)) ≡ some rest
unfolding after_scheme
after_scheme-plain [] rest h = refl
after_scheme-plain (c ∷ scheme) rest h =
    rw (no_mark c (scheme ++ (b':' ∷ b'/' ∷ b'/' ∷ rest)) h.0) (after_scheme-plain scheme rest h.1)

after_scheme-none : (text : List ℕ) → IsPlain text → after_scheme text ≡ none
unfolding after_scheme
after_scheme-none [] h = refl
after_scheme-none (c ∷ text) h = rw (no_mark c text h.0) (after_scheme-none text h.1)

split_at_colon-plain : (text : List ℕ) → IsPlain text → split_at_colon text ≡ none
unfolding split_at_colon
split_at_colon-plain [] h = refl
split_at_colon-plain (c ∷ text) h = rw (split_at_colon-plain text h.1, h.0) refl

-- The last colon is the one before the port.
split_at_colon-append :
    (host port : List ℕ) → IsPlain port → split_at_colon (host ++ (b':' ∷ port)) ≡ some (host, port)
unfolding split_at_colon
split_at_colon-append [] port h = rw (split_at_colon-plain port h) refl
split_at_colon-append (c ∷ host) port h = rw (split_at_colon-append host port h) refl

no_slash :
    (d x : ℕ) (port : List ℕ) → (d == b'/') ≡ false → behind_mark (b':' ∷ d ∷ x ∷ port) ≡ none
no_slash d x port e = rw e refl

-- No mark stands in a host and a port that have a colon between them only.
after_scheme-host :
    (host : List ℕ) (d : ℕ) (port : List ℕ)
    → IsPlain host
    → IsPlain (d ∷ port)
    → (d == b'/') ≡ false
    → after_scheme (host ++ (b':' ∷ d ∷ port)) ≡ none
unfolding after_scheme
after_scheme-host [] d [] h k e = refl
after_scheme-host [] d (x ∷ port) h k e =
    rw (no_slash d x port e) (after_scheme-none (d ∷ x ∷ port) k)
after_scheme-host (c ∷ host) d port h k e =
    rw (no_mark c (host ++ (b':' ∷ d ∷ port)) h.0) (after_scheme-host host d port h.1 k e)

-- The host and the port are found, with a scheme in front of them and without: the three have no
-- colon, the port is not empty and does not begin with a slash.
pub host_and_port_lem :
    (scheme host : List ℕ) (d : ℕ) (port : List ℕ)
    → IsPlain scheme
    → IsPlain host
    → IsPlain (d ∷ port)
    → (d == b'/') ≡ false
    → (host_and_port (scheme ++ (b':' ∷ b'/' ∷ b'/' ∷ (host ++ (b':' ∷ d ∷ port))))
        ≡ some (host, d ∷ port))
      × (host_and_port (host ++ (b':' ∷ d ∷ port)) ≡ some (host, d ∷ port))
unfolding host_and_port
host_and_port_lem scheme host d port s h p e = (
  rw
      (
        after_scheme-plain scheme (host ++ (b':' ∷ d ∷ port)) s,
        split_at_colon-append host (d ∷ port) p,
      )
      refl,
  rw (after_scheme-host host d port h p e, split_at_colon-append host (d ∷ port) p) refl,
)
