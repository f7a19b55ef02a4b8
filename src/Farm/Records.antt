-- ===== src/Farm/Records.antt =====
-- The statistics of a session (libethcore/Farm.h, Miner.h): the best hash, the solution counters,
-- the nonces that were searched.
use mvis_tokenminer.Prelude.{
  ℕ, zero, suc, ◌+◌, ◌-◌, ◌≤◌, ◌<◌, ◌^◌, ◌≡◌, ◌≢◌, refl, ap, ◌∙◌, arith, min,
}
use mvis_tokenminer.Prelude.{Bool, true, false, List, [], ◌∷◌, map, All}
use mvis_tokenminer.Prelude.{if◌then◌else◌, Bool-cases, inl, inr}
use mvis_tokenminer.Miner.{Miner, SolutionState, accepted, rejected, failed, SolutionStats, u32}
use mvis_tokenminer.Miner.{count_accepted, count_accepted_stale, count_rejected}
use mvis_tokenminer.Miner.{count_rejected_stale, count_failed, no_hash, reset_miner_hash}
use mvis_tokenminer.Farm.{Farm, suggest_best_hash, set_best_hash, set_at, reset_best_hash}
use mvis_tokenminer.Farm.{count_solution, record_solution, contains, store_nonce_index}

-- The reports that change hashes: a miner's own best hash, and the outcome of a solution.
pub data Report : Type 0 where
  hash : ℕ → ℕ → Report
  outcome : SolutionState → Bool → Report

pub report : Report → Farm → Farm
report (hash i bh) f = set_best_hash i bh f
report (outcome state stale) f = record_solution state stale f

pub reports : List Report → Farm → Farm
reports [] f = f
reports (r ∷ rs) f = reports rs (report r f)

-- No miner has a better hash than the farm.
abbrev pub IsBest : Farm → Type 0
IsBest f = All (λ m. f.best_hash ≤ m.best_hash) f.miners

All-lower :
    (a b : ℕ) (ms : List Miner)
    → b ≤ a
    → All (λ m. a ≤ m.best_hash) ms
    → All (λ m. b ≤ m.best_hash) ms
All-lower a b [] h k = tt
All-lower a b (m ∷ ms) h (hm, k) = (omega arith, All-lower a b ms h k)

set_at-IsBest :
    (i bh b : ℕ) (ms : List Miner)
    → b ≤ bh
    → All (λ m. b ≤ m.best_hash) ms
    → All (λ m. b ≤ m.best_hash) (set_at i (λ m. record m { best_hash = bh }) ms)
unfolding set_at
set_at-IsBest i bh b [] h k = tt
set_at-IsBest zero bh b (m ∷ ms) h k = (h, k.1)
set_at-IsBest (suc i) bh b (m ∷ ms) h k = (k.0, set_at-IsBest i bh b ms h k.1)

reset-IsBest : (ms : List Miner) → All (λ m. no_hash ≤ m.best_hash) (map reset_miner_hash ms)
unfolding reset_miner_hash
reset-IsBest [] = tt
reset-IsBest (m ∷ ms) = (omega arith, reset-IsBest ms)

best_hash-suggest : (bh : ℕ) (f : Farm) → (suggest_best_hash bh f).best_hash ≡ min bh f.best_hash
unfolding suggest_best_hash
best_hash-suggest bh f = ground arith

miners-suggest : (bh : ℕ) (f : Farm) → (suggest_best_hash bh f).miners ≡ f.miners
unfolding suggest_best_hash
miners-suggest bh f = ground arith

report-IsBest : (r : Report) (f : Farm) → IsBest f → IsBest (report r f)
unfolding report set_best_hash record_solution reset_best_hash
report-IsBest (hash i bh) f h =
    rw (miners-suggest bh f, best_hash-suggest bh f)
      (set_at-IsBest i bh (min bh f.best_hash) f.miners (omega arith)
        (All-lower f.best_hash (min bh f.best_hash) f.miners (omega arith) h))
report-IsBest (outcome state stale) f h = reset-IsBest f.miners

-- Whatever is reported, in any order, no miner ever has a better hash than the farm records.
pub reports-IsBest : (rs : List Report) (f : Farm) → IsBest f → IsBest (reports rs f)
unfolding reports
reports-IsBest [] f h = h
reports-IsBest (r ∷ rs) f h = reports-IsBest rs (report r f) (report-IsBest r f h)

-- The best of the hashes reported since the last outcome, and the one recorded before.
abbrev pub best_of : List Report → ℕ → ℕ
best_of [] b = b
best_of (hash i bh ∷ rs) b = best_of rs (min bh b)
best_of (outcome state stale ∷ rs) b = best_of rs no_hash

report-best_of : (r : Report) (f : Farm) → (report r f).best_hash ≡ best_of (r ∷ []) f.best_hash
unfolding report set_best_hash record_solution reset_best_hash
report-best_of (hash i bh) f = best_hash-suggest bh f
report-best_of (outcome state stale) f = refl

-- The hash that the farm records is the least one reported since the last solution was processed.
pub best_hash-reports :
    (rs : List Report) (f : Farm) → (reports rs f).best_hash ≡ best_of rs f.best_hash
unfolding reports
best_hash-reports [] f = refl
best_hash-reports (hash i bh ∷ rs) f =
    best_hash-reports rs (report (hash i bh) f) ∙ ap (best_of rs) (report-best_of (hash i bh) f)
best_hash-reports (outcome state stale ∷ rs) f =
    best_hash-reports rs (report (outcome state stale) f)
    ∙ ap (best_of rs) (report-best_of (outcome state stale) f)

abbrev pub total : SolutionStats → ℕ
total s = s.accepts + s.rejects + s.failures + s.accepted_stales + s.rejected_stales

abbrev pub is_accepted : SolutionState → ℕ
is_accepted accepted = 1
is_accepted _ = 0

-- Every outcome of a solution is counted once, and while the counters have not reached 2 ^ 32 none
-- is lost: the accepted ones, stale or not, are those that were accepted.
pub record_solution_counts :
    (state : SolutionState) (stale : Bool) (f : Farm)
    → total f.stats < 2 ^ 32 - 1
    → (total (record_solution state stale f).stats ≡ total f.stats + 1)
      × ((record_solution state stale f).stats.accepts
            + (record_solution state stale f).stats.accepted_stales
          ≡ f.stats.accepts + f.stats.accepted_stales + is_accepted state)
unfolding record_solution reset_best_hash count_solution count_accepted count_accepted_stale
    count_rejected count_rejected_stale count_failed
record_solution_counts accepted stale f h = ground arith
record_solution_counts rejected stale f h = ground arith
record_solution_counts failed stale f h = ground arith

-- Which of the indices a run of `storeNonceIndex` lets through, with no clear in between.
pub stored : List ℕ → Farm → List ℕ
stored [] f = []
stored (n ∷ ns) f =
    let rest = stored ns (store_nonce_index n false f).1 in
    if (store_nonce_index n false f).0 then n ∷ rest else rest

-- Two indices of the list differ in their low 32 bits.
abbrev pub Distinct : List ℕ → Type 0
Distinct [] = Unit
Distinct (n ∷ ns) = All (λ k. u32 k ≢ u32 n) ns × Distinct ns

contains_cons : (k n : ℕ) (ns : List ℕ) → contains k ns ≡ true → contains k (n ∷ ns) ≡ true
unfolding contains
contains_cons k n ns h = ground arith

contains_self : (n : ℕ) (ns : List ℕ) → contains n (n ∷ ns) ≡ true
unfolding contains
contains_self n ns = ground arith

apart : (k n : ℕ) (ns : List ℕ) → contains k ns ≡ true → contains n ns ≡ false → n ≢ k
apart k n ns h g e = cc (ap (λ x. contains x ns) e)

-- What is let through was not stored before.
stored_fresh :
    (k : ℕ) (ns : List ℕ) (f : Farm)
    → contains (u32 k) f.used_nonces ≡ true
    → All (λ n. u32 n ≢ u32 k) (stored ns f)
unfolding stored store_nonce_index
stored_fresh k [] f h = tt
stored_fresh k (n ∷ ns) f h = elim (Bool-cases (contains (u32 n) f.used_nonces)) [
  | inl old ↦ rw old (stored_fresh k ns f h)
  | inr new ↦ rw new (
    apart (u32 k) (u32 n) f.used_nonces h new,
    stored_fresh k ns (record f { used_nonces = u32 n ∷ f.used_nonces })
        (contains_cons (u32 k) (u32 n) f.used_nonces h),
  )
]

-- No index is searched twice: of those that `storeNonceIndex` lets through between two clears, no two
-- agree in their low 32 bits, which is all that the set keeps of them.
pub stored-Distinct : (ns : List ℕ) (f : Farm) → Distinct (stored ns f)
unfolding stored store_nonce_index
stored-Distinct [] f = tt
stored-Distinct (n ∷ ns) f = elim (Bool-cases (contains (u32 n) f.used_nonces)) [
  | inl old ↦ rw old (stored-Distinct ns f)
  | inr new ↦
      let g = record f { used_nonces = u32 n ∷ f.used_nonces } in
      rw new (stored_fresh n ns g (contains_self (u32 n) f.used_nonces), stored-Distinct ns g)
]
