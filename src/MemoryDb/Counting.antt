-- ===== src/MemoryDb/Counting.antt =====
-- What a key stands for over any calls (libdevcore/MemoryDB.cpp).
use mathlib.Core.Path.{subst}
use mvis_tokenminer.Prelude.{
  ℕ, suc, ◌+◌, ◌^◌, ◌<◌, ◌≡◌, refl, sym, ap, ◌∙◌, arith, List, [], ◌∷◌, Option, none, some,
}
use mvis_tokenminer.Prelude.{Bool, true, false, Bool-cases, inl, inr, ltb, ◌==◌, ==_iff, length}
use mvis_tokenminer.MemoryDb.{
  Entry, find, counts, value_if, lookup, counts_if, exists, insert, kill, Change, to_insert,
  to_kill, to_purge, change, changes,
}
use mvis_tokenminer.MemoryDb.Nodes.{
  UsedNode, used_again, used_less, changed, changed_by, node_of, node, Keyed, insert-find,
  lowered-find, insert-node, lowered-node, Keyed-more, insert-Keyed, lowered-Keyed, purge-node,
  purge-Keyed,
}

-- Whether a node is used, and its value, if it is.
abbrev pub is_used : UsedNode → Bool
is_used none = false
is_used (some n) = true

abbrev pub used_value : UsedNode → List ℕ
used_value none = []
used_value (some (v, n)) = v

counts_if-node : (o : Option Entry) → counts_if true o ≡ is_used (node_of o)
unfolding counts_if counts
counts_if-node none = refl
counts_if-node (some e) = elim (Bool-cases (e.refs == 0)) [
  | inl f ↦ rw f (ground (arith, f))
  | inr f ↦ rw f (ground (arith, f))
]

value_if-node : (o : Option Entry) → value_if true o ≡ used_value (node_of o)
unfolding value_if counts
value_if-node none = refl
value_if-node (some e) = elim (Bool-cases (e.refs == 0)) [
  | inl f ↦ let uncounted : ltb 0 e.refs ≡ false = ground (arith, f) in rw (f, uncounted) refl
  | inr f ↦ let counted : ltb 0 e.refs ≡ true = ground (arith, f) in rw (f, counted) refl
]

unused_less : (n : UsedNode) → is_used n ≡ false → n ≡ used_less n
unused_less none h = refl
unused_less (some n) h = cc h

kill-node : (h : ℕ) (es : List Entry) → node h (kill h es).1 ≡ used_less (node h es)
unfolding kill
kill-node h es = elim (Bool-cases (counts_if true (find h es))) [
  | inl f ↦ rw f (lowered-node h es)
  | inr f ↦ rw f (unused_less (node h es) (sym (counts_if-node (find h es)) ∙ f))
]

kill-other : (k h : ℕ) (es : List Entry) → (k == h) ≡ false → node h (kill k es).1 ≡ node h es
unfolding kill
kill-other k h es other = elim (Bool-cases (counts_if true (find k es))) [
  | inl f ↦ rw f (ap node_of (lowered-find k h es other))
  | inr f ↦ rw f refl
]

kill-Keyed : (h limit : ℕ) (es : List Entry) → Keyed limit es → Keyed limit (kill h es).1
unfolding kill
kill-Keyed h limit es keyed = elim (Bool-cases (counts_if true (find h es))) [
  | inl f ↦ rw f (lowered-Keyed h limit es keyed)
  | inr f ↦ rw f keyed
]

change-node :
    (h limit : ℕ) (c : Change) (es : List Entry)
    → suc limit < 2 ^ 32
    → Keyed limit es
    → (node h (change c es) ≡ changed h c (node h es)) × Keyed (suc limit) (change c es)
unfolding change
change-node h limit (to_insert k v) es small keyed = (
  elim (Bool-cases (k == h)) [
    | inl f ↦ rw f (
        subst (λ n. node h (insert n v es) ≡ used_again v (node h es)) (sym ((==_iff k h).0 f))
          (insert-node h limit v es small keyed))
    | inr f ↦ rw f (ap node_of (insert-find k h v es f))
  ],
  insert-Keyed k limit v es keyed,
)
change-node h limit (to_kill k) es small keyed = (
  elim (Bool-cases (k == h)) [
    | inl f ↦ rw f (
        subst (λ n. node h (kill n es).1 ≡ used_less (node h es)) (sym ((==_iff k h).0 f))
          (kill-node h es))
    | inr f ↦ rw f (kill-other k h es f)
  ],
  Keyed-more limit _ (kill-Keyed k limit es keyed),
)
change-node h limit to_purge es small keyed =
    (purge-node h limit es keyed, Keyed-more limit _ (purge-Keyed limit es keyed))

changes-node :
    (h limit : ℕ) (cs : List Change) (es : List Entry)
    → limit + length cs < 2 ^ 32
    → Keyed limit es
    → node h (changes cs es) ≡ changed_by h cs (node h es)
unfolding changes
changes-node h limit [] es small keyed = refl
changes-node h limit (c ∷ cs) es small keyed =
    let (same, more) = change-node h limit c es (omega arith) keyed in
    changes-node h (suc limit) cs (change c es) (omega arith) more ∙ ap (changed_by h cs) same

kill_tells : (h : ℕ) (es : List Entry) → (kill h es).0 ≡ counts_if true (find h es)
unfolding kill
kill_tells h es = elim (Bool-cases (counts_if true (find h es))) [
  | inl f ↦ rw f refl
  | inr f ↦ rw f refl
]

-- After fewer than 2^32 calls, where counts are enforced: a key exists, is found and can be killed
-- exactly where it was inserted more often than it was killed, a kill of what is not there not counting,
-- with the value that was inserted last; purging changes none of it.
pub changes-UsedNode :
    (cs : List Change) (h : ℕ)
    → length cs < 2 ^ 32
    → (exists true h (changes cs []) ≡ is_used (changed_by h cs none))
      × (lookup true h (changes cs []) ≡ used_value (changed_by h cs none))
      × ((kill h (changes cs [])).0 ≡ is_used (changed_by h cs none))
unfolding exists lookup find
changes-UsedNode cs h small =
    let same = changes-node h 0 cs [] (omega arith) tt in
    let used = counts_if-node (find h (changes cs [])) ∙ ap is_used same in
    (
      used,
      value_if-node (find h (changes cs [])) ∙ ap used_value same,
      kill_tells h (changes cs []) ∙ used,
    )
