-- ===== src/Startup/Failover.antt =====
-- The loop over the nodes in `execute` (ethminer/MinerAux.h).
use mvis_tokenminer.Prelude.{ℕ, zero, suc, ◌+◌, ◌%◌, ◌≡◌, refl, ap, sym, ◌∙◌, List, [], ◌∷◌, ◌++◌}
use mvis_tokenminer.Prelude.{
  append-nil, append_assoc, Bool, true, false, ◌==◌, if◌then◌else◌, list_eq,
}
use mvis_tokenminer.Options.{Node, Settings}

-- `doStratum` or `doGetWork`, with the address.
pub data NodeCall : Type 0 where
  do_stratum : List ℕ → NodeCall
  do_get_work : List ℕ → NodeCall

unfoldable pub visit : Node → List NodeCall
visit n =
    if list_eq n.url []
    then []
    else (if n.is_stratum then do_stratum n.url else do_get_work n.url) ∷ []

-- `m_nodes[i]`
unfoldable pub node_at : Settings → ℕ → Node
node_at s i = if i == 0 then s.node else s.node2

-- The rounds of the loop: an answer is what `shutDown` of the farm is behind a visit.
unfoldable pub visits : Settings → List Bool → ℕ → List NodeCall
visits s [] i = []
visits s (true ∷ answers) i = visit (node_at s i)
visits s (false ∷ answers) i = visit (node_at s i) ++ visits s answers ((i + 1) % 2)

-- Both nodes in turn, so many times.
abbrev pub in_turn : Settings → ℕ → List NodeCall
in_turn s zero = []
in_turn s (suc n) = visit s.node ++ (visit s.node2 ++ in_turn s n)

-- Twice so many answers that the farm runs on, and others.
abbrev pub runs_on : ℕ → List Bool → List Bool
runs_on zero answers = answers
runs_on (suc n) answers = false ∷ false ∷ runs_on n answers

-- The calls go to the main node and to the failover node in turn, the main node first, and leave out a
-- node without an address, up to the first visit behind which the farm is shut down: that of the main
-- node in an odd round, and of the failover node in an even one.
pub visits-in_turn :
    (s : Settings) (n : ℕ) (later : List Bool)
    → (visits s (runs_on n (true ∷ later)) 0 ≡ in_turn s n ++ visit s.node)
      × (visits s (runs_on n (false ∷ true ∷ later)) 0 ≡ in_turn s (suc n))
unfolding visits node_at
visits-in_turn s zero later = (refl, ap (λ l. visit s.node ++ l) (sym (append-nil (visit s.node2))))
visits-in_turn s (suc n) later =
    let (odd, even) = visits-in_turn s n later in
    (
      ap (λ l. visit s.node ++ (visit s.node2 ++ l)) odd ∙ simp append_assoc,
      ap (λ l. visit s.node ++ (visit s.node2 ++ l)) even,
    )
