-- ===== src/MemoryDb.antt =====
-- The database of trie nodes in memory (libdevcore/MemoryDB.h, MemoryDB.cpp). `m_main` is the list of its
-- entries, in some order; a key is a hash as a number, and the count of an entry has 32 bits. Whether
-- counts are enforced is an argument.
pub mod Nodes
pub mod Counting
use mvis_tokenminer.Prelude.{ℕ, ◌+◌, ◌-◌, ◌%◌, ◌^◌, List, [], ◌∷◌, Option, none, some}
use mvis_tokenminer.Prelude.{Bool, true, false, ◌&&◌, ◌||◌, not, ltb, ◌==◌, if◌then◌else◌}

-- An entry of `m_main`, and one of `m_aux`.
pub record Entry : Type 0 where
  pub key : ℕ
  pub value : List ℕ
  pub refs : ℕ

pub record AuxEntry : Type 0 where
  pub key : ℕ
  pub value : List ℕ
  pub present : Bool

unfoldable pub find : ℕ → List Entry → Option Entry
find h [] = none
find h (e ∷ es) = if e.key == h then some e else find h es

-- `!m_enforceRefs || it->second.second > 0`
unfoldable pub counts : Bool → Entry → Bool
counts enforce e = not enforce || ltb 0 e.refs

pub value_if : Bool → Option Entry → List ℕ
value_if enforce none = []
value_if enforce (some e) = if counts enforce e then e.value else []

pub lookup : Bool → ℕ → List Entry → List ℕ
lookup enforce h es = value_if enforce (find h es)

unfoldable pub counts_if : Bool → Option Entry → Bool
counts_if enforce none = false
counts_if enforce (some e) = counts enforce e

unfoldable pub exists : Bool → ℕ → List Entry → Bool
exists enforce h es = counts_if enforce (find h es)

unfoldable pub insert : ℕ → List ℕ → List Entry → List Entry
insert h v [] = record { key = h; value = v; refs = 1 } ∷ []
insert h v (e ∷ es) =
    if e.key == h
    then record e { value = v; refs = (e.refs + 1) % 2 ^ 32 } ∷ es
    else e ∷ insert h v es

-- `kill`: whether a count was lowered, and the entries.
unfoldable pub lowered : ℕ → List Entry → List Entry
lowered h [] = []
lowered h (e ∷ es) = if e.key == h then record e { refs = e.refs - 1 } ∷ es else e ∷ lowered h es

unfoldable pub kill : ℕ → List Entry → Bool × List Entry
kill h es = if counts_if true (find h es) then (true, lowered h es) else (false, es)

unfoldable pub purge : List Entry → List Entry
purge [] = []
purge (e ∷ es) = if e.refs == 0 then purge es else e ∷ purge es

unfoldable pub keys : List Entry → List ℕ
keys [] = []
keys (e ∷ es) = if e.refs == 0 then keys es else e.key ∷ keys es

-- `get`
unfoldable pub all_values : Bool → List Entry → List (ℕ × List ℕ)
all_values enforce [] = []
all_values enforce (e ∷ es) =
    if counts enforce e then (e.key, e.value) ∷ all_values enforce es else all_values enforce es

unfoldable pub find_aux : ℕ → List AuxEntry → Option AuxEntry
find_aux h [] = none
find_aux h (e ∷ es) = if e.key == h then some e else find_aux h es

unfoldable pub present_value : Bool → Option AuxEntry → List ℕ
present_value enforce none = []
present_value enforce (some e) = if not enforce || e.present then e.value else []

unfoldable pub lookup_aux : Bool → ℕ → List AuxEntry → List ℕ
lookup_aux enforce h es = present_value enforce (find_aux h es)

-- `m_aux[_h].second = false`, which makes an entry where there is none.
unfoldable pub remove_aux : ℕ → List AuxEntry → List AuxEntry
remove_aux h [] = record { key = h; value = []; present = false } ∷ []
remove_aux h (e ∷ es) =
    if e.key == h then record e { present = false } ∷ es else e ∷ remove_aux h es

unfoldable pub insert_aux : ℕ → List ℕ → List AuxEntry → List AuxEntry
insert_aux h v [] = record { key = h; value = v; present = true } ∷ []
insert_aux h v (e ∷ es) =
    if e.key == h then record { key = h; value = v; present = true } ∷ es else e ∷ insert_aux h v es

-- The calls that change `m_main`.
pub data Change : Type 0 where
  to_insert : ℕ → List ℕ → Change
  to_kill : ℕ → Change
  to_purge : Change

unfoldable pub change : Change → List Entry → List Entry
change (to_insert h v) es = insert h v es
change (to_kill h) es = (kill h es).1
change to_purge es = purge es

unfoldable pub changes : List Change → List Entry → List Entry
changes [] es = es
changes (c ∷ cs) es = changes cs (change c es)
