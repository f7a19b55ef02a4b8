-- ===== src/MemoryDb/Nodes.antt =====
-- The node that a key stands for, and what one call makes of it (libdevcore/MemoryDB.cpp).
use mathlib.Core.Path.{subst}
use mvis_tokenminer.Prelude.{
  ℕ, suc, ◌+◌, ◌-◌, ◌%◌, ◌^◌, ◌<◌, ◌≤◌, ◌≡◌, refl, ap, ◌∙◌, arith, List, [], ◌∷◌, Option, none,
  some,
}
use mvis_tokenminer.Prelude.{true, false, Bool-cases, inl, inr, ◌==◌, ==_iff, if◌then◌else◌}
use mvis_tokenminer.MemoryDb.{
  Entry, find, insert, lowered, purge, Change, to_insert, to_kill, to_purge,
}

-- A node with the number of its uses, if there are some.
abbrev pub UsedNode : Type 0
UsedNode = Option (List ℕ × ℕ)

-- What a call makes of the node of a key.
abbrev pub used_again : List ℕ → UsedNode → UsedNode
used_again v none = some (v, 1)
used_again v (some (w, n)) = some (v, n + 1)

abbrev pub used_less : UsedNode → UsedNode
used_less none = none
used_less (some (w, n)) = if n == 1 then none else some (w, n - 1)

abbrev pub changed : ℕ → Change → UsedNode → UsedNode
changed h (to_insert k v) n = if k == h then used_again v n else n
changed h (to_kill k) n = if k == h then used_less n else n
changed h to_purge n = n

abbrev pub changed_by : ℕ → List Change → UsedNode → UsedNode
changed_by h [] n = n
changed_by h (c ∷ cs) n = changed_by h cs (changed h c n)

-- The node of an entry, and of a key.
abbrev pub node_of : Option Entry → UsedNode
node_of none = none
node_of (some e) = if e.refs == 0 then none else some (e.value, e.refs)

abbrev pub node : ℕ → List Entry → UsedNode
node h es = node_of (find h es)

-- No two entries have one key, and the counts are at most a number.
abbrev pub Keyed : ℕ → List Entry → Type 0
Keyed limit [] = Unit
Keyed limit (e ∷ es) = (find e.key es ≡ none) × (e.refs ≤ limit) × Keyed limit es

pub insert-find :
    (k h : ℕ) (v : List ℕ) (es : List Entry) → (k == h) ≡ false → find h (insert k v es) ≡ find h es
unfolding find insert
insert-find k h v [] other = rw other refl
insert-find k h v (e ∷ es) other = elim (Bool-cases (e.key == k)) [
  | inl f ↦ let differs : (e.key == h) ≡ false = ground (arith, other, f) in rw (f, differs) refl
  | inr f ↦ rw (f, insert-find k h v es other) refl
]

pub lowered-find :
    (k h : ℕ) (es : List Entry) → (k == h) ≡ false → find h (lowered k es) ≡ find h es
unfolding find lowered
lowered-find k h [] other = refl
lowered-find k h (e ∷ es) other = elim (Bool-cases (e.key == k)) [
  | inl f ↦ let differs : (e.key == h) ≡ false = ground (arith, other, f) in rw (f, differs) refl
  | inr f ↦ rw (f, lowered-find k h es other) refl
]

again_node :
    (r : ℕ) (v w : List ℕ)
    → r + 1 < 2 ^ 32
    → (if (r + 1) % 2 ^ 32 == 0 then none else some (v, (r + 1) % 2 ^ 32))
      ≡ used_again v (if r == 0 then none else some (w, r))
again_node r v w small =
    let whole : (r + 1) % 2 ^ 32 ≡ r + 1 = omega arith in
    let above : (r + 1 == 0) ≡ false = ground arith in
    elim (Bool-cases (r == 0)) [
      | inl f ↦ rw (whole, above, f) (ap (λ n. some (v, n)) (ground (arith, f)))
      | inr f ↦ rw (whole, above, f) refl
    ]

less_node :
    (r : ℕ) (w : List ℕ)
    → (if r - 1 == 0 then none else some (w, r - 1))
      ≡ used_less (if r == 0 then none else some (w, r))
less_node r w = elim (Bool-cases (r == 0)) [
  | inl f ↦ let none_left : (r - 1 == 0) ≡ true = ground (arith, f) in rw (f, none_left) refl
  | inr f ↦ elim (Bool-cases (r == 1)) [
    | inl g ↦ let none_left : (r - 1 == 0) ≡ true = ground (arith, g) in rw (f, g, none_left) refl
    | inr g ↦ let left : (r - 1 == 0) ≡ false = ground (arith, f, g) in rw (f, g, left) refl
  ]
]

pub Keyed-more : (limit : ℕ) (es : List Entry) → Keyed limit es → Keyed (suc limit) es
Keyed-more limit [] keyed = tt
Keyed-more limit (e ∷ es) (one, low, keyed) = (one, omega arith, Keyed-more limit es keyed)

pub insert-node :
    (h limit : ℕ) (v : List ℕ) (es : List Entry)
    → suc limit < 2 ^ 32
    → Keyed limit es
    → node h (insert h v es) ≡ used_again v (node h es)
unfolding find insert
insert-node h limit v [] small keyed = ground arith
insert-node h limit v (e ∷ es) small (one, low, keyed) = elim (Bool-cases (e.key == h)) [
  | inl f ↦ rw (f, f) (again_node e.refs v e.value (omega arith))
  | inr f ↦ rw (f, f) (insert-node h limit v es small keyed)
]

pub lowered-node : (h : ℕ) (es : List Entry) → node h (lowered h es) ≡ used_less (node h es)
unfolding find lowered
lowered-node h [] = refl
lowered-node h (e ∷ es) = elim (Bool-cases (e.key == h)) [
  | inl f ↦ rw (f, f) (less_node e.refs e.value)
  | inr f ↦ rw (f, f) (lowered-node h es)
]

pub insert-Keyed :
    (h limit : ℕ) (v : List ℕ) (es : List Entry)
    → Keyed limit es
    → Keyed (suc limit) (insert h v es)
unfolding insert find
insert-Keyed h limit v [] keyed = (refl, omega arith, tt)
insert-Keyed h limit v (e ∷ es) (one, low, keyed) = elim (Bool-cases (e.key == h)) [
  | inl f ↦ rw f (one, omega arith, Keyed-more limit es keyed)
  | inr f ↦ rw f (
    insert-find h e.key v es (ground (arith, f)) ∙ one,
    omega arith,
    insert-Keyed h limit v es keyed,
  )
]

pub lowered-Keyed : (h limit : ℕ) (es : List Entry) → Keyed limit es → Keyed limit (lowered h es)
unfolding lowered
lowered-Keyed h limit [] keyed = tt
lowered-Keyed h limit (e ∷ es) (one, low, keyed) = elim (Bool-cases (e.key == h)) [
  | inl f ↦ rw f (one, omega arith, keyed)
  | inr f ↦
      rw f (lowered-find h e.key es (ground (arith, f)) ∙ one, low, lowered-Keyed h limit es keyed)
]

purge-find-none : (h : ℕ) (es : List Entry) → find h es ≡ none → find h (purge es) ≡ none
unfolding find purge
purge-find-none h [] missing = refl
purge-find-none h (e ∷ es) missing = elim (Bool-cases (e.key == h)) [
  | inl f ↦ cc (rw f at missing)
  | inr f ↦ elim (Bool-cases (e.refs == 0)) [
    | inl g ↦ rw g (purge-find-none h es (rw f at missing))
    | inr g ↦ rw (g, f) (purge-find-none h es (rw f at missing))
  ]
]

pub purge-node : (h limit : ℕ) (es : List Entry) → Keyed limit es → node h (purge es) ≡ node h es
unfolding find purge
purge-node h limit [] keyed = refl
purge-node h limit (e ∷ es) (one, low, keyed) = elim (Bool-cases (e.refs == 0)) [
  | inl g ↦ elim (Bool-cases (e.key == h)) [
    | inl f ↦
        let missing = subst (λ k. find k es ≡ none) ((==_iff e.key h).0 f) one in
        rw (g, f, purge-find-none h es missing, g) refl
    | inr f ↦ rw (g, f) (purge-node h limit es keyed)
  ]
  | inr g ↦ elim (Bool-cases (e.key == h)) [
    | inl f ↦ rw (g, f) refl
    | inr f ↦ rw (g, f) (purge-node h limit es keyed)
  ]
]

pub purge-Keyed : (limit : ℕ) (es : List Entry) → Keyed limit es → Keyed limit (purge es)
unfolding purge
purge-Keyed limit [] keyed = tt
purge-Keyed limit (e ∷ es) (one, low, keyed) = elim (Bool-cases (e.refs == 0)) [
  | inl g ↦ rw g (purge-Keyed limit es keyed)
  | inr g ↦ rw g (purge-find-none e.key es one, low, purge-Keyed limit es keyed)
]
