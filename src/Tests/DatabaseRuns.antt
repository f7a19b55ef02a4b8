-- ===== src/Tests/DatabaseRuns.antt =====
-- Runs of the database of trie nodes (libdevcore/MemoryDB.cpp).
use mvis_tokenminer.Prelude.{◌≡◌, refl, arith, List, [], ◌∷◌, none, true, false}
use mvis_tokenminer.MemoryDb.{
  Change, to_insert, to_kill, to_purge, changes, exists, lookup, kill, keys, all_values, find,
  insert, change, lowered, purge, counts, counts_if, insert_aux, remove_aux, lookup_aux, find_aux,
  present_value,
}
use mvis_tokenminer.MemoryDb.Nodes.{changed_by}
use mvis_tokenminer.MemoryDb.Counting.{is_used, used_value, changes-UsedNode}

abbrev calls : List Change
calls = to_insert 1 (7 ∷ []) ∷ to_insert 2 [] ∷ to_insert 1 (8 ∷ []) ∷ to_kill 1 ∷ to_kill 2 ∷ []

-- Where counts are not enforced, a node that was killed is found until the database is purged.
calls_run :
    (keys (changes calls []) ≡ 1 ∷ [])
    × (all_values false (changes calls []) ≡ (1, 8 ∷ []) ∷ (2, []) ∷ [])
    × (exists false 2 (changes calls []) ≡ true)
    × (exists false 2 (changes (to_purge ∷ []) (changes calls [])) ≡ false)
unfolding changes change keys all_values exists counts counts_if find insert kill lowered purge
calls_run = (refl, refl, refl, refl)

aux_run :
    (lookup_aux true 3 (insert_aux 3 (9 ∷ []) []) ≡ 9 ∷ [])
    × (lookup_aux true 3 (remove_aux 3 (insert_aux 3 (9 ∷ []) [])) ≡ [])
unfolding lookup_aux find_aux present_value insert_aux remove_aux
aux_run = (refl, refl)

changes-UsedNode_example :
    (exists true 1 (changes calls []) ≡ is_used (changed_by 1 calls none))
    × (lookup true 1 (changes calls []) ≡ used_value (changed_by 1 calls none))
    × ((kill 1 (changes calls [])).0 ≡ is_used (changed_by 1 calls none))
changes-UsedNode_example = changes-UsedNode calls 1 (omega arith)
