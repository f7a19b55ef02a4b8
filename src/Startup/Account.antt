-- ===== src/Startup/Account.antt =====
-- Which accounts and settings are mined with (ethminer/MinerAux.h: execute).
use mvis_tokenminer.Prelude.{ℕ, ◌+◌, ◌*◌, ◌<◌, ◌≡◌}
use mvis_tokenminer.Prelude.{List, [], ◌∷◌, Option, none, some}
use mvis_tokenminer.Prelude.{Bool, true, false, ◌||◌, not, ◌==◌, if◌then◌else◌, length, list_eq}
use mvis_tokenminer.Hex.{from_hex_digit}
use mvis_tokenminer.Options.{MinerType, cpu, cl, Settings}
use mvis_tokenminer.Startup.{Refusal, Startup, mines, Machine, use_devices}

-- A text up to the first delimiter.
abbrev pub before : ℕ → List ℕ → List ℕ
before delimiter [] = []
before delimiter (c ∷ t) = if c == delimiter then [] else c ∷ before delimiter t

-- The value of hexadecimal digits behind those of `n`.
abbrev pub digit_value : ℕ → List ℕ → Option ℕ
digit_value n [] = some n
digit_value n (c ∷ t) = elim (from_hex_digit c) [
  | none ↦ none
  | some d ↦ digit_value (n * 16 + d) t
]

-- "0x" and 40 hexadecimal digits that are not all zero.
abbrev pub IsAccount : List ℕ → Type 0
IsAccount acct =
    (digits : List ℕ) × (n : ℕ) × (acct ≡ b'0' ∷ b'x' ∷ digits)
    × (length digits ≡ 40)
    × (digit_value 0 digits ≡ some n)
    × (0 < n)

-- A node with an address: the loop calls no other.
abbrev pub has_node : Settings → Bool
has_node s = not (list_eq s.node.url []) || not (list_eq s.node2.url [])

-- The farm has its miners, and the loop over the nodes a node to mine for.
abbrev pub is_mining : Startup → Bool
is_mining (mines st miners) = has_node st.settings
is_mining _ = false

-- A build with OpenCL alone mines on a CPU, or where OpenCL can be set up. There are no miners for both.
abbrev pub can_mine : Machine → MinerType → Settings → Bool
can_mine m cpu s = true
can_mine m cl s = m.configure_gpu (use_devices s)
can_mine m _ s = false

is_created : MinerType → Bool
is_created cpu = true
is_created cl = true
is_created _ = false

accepts : Option Refusal → Bool
accepts none = true
accepts (some r) = false
