-- ===== src/MainLoop/Recent.antt =====
-- The challenges that the loop remembers in solo mining (ethminer/MinerAux.h).
use mvis_tokenminer.Prelude.{ℕ, zero, suc, ◌≤◌, ◌≡◌, refl, arith, List, [], ◌∷◌, map, false, true}
use mvis_tokenminer.Prelude.{◌==◌, list_eq, length, take, inl, inr, Bool-cases}
use mvis_tokenminer.Prelude.{Result-cases, if◌then◌else◌}
use mvis_tokenminer.Miner.{solo}
use mvis_tokenminer.Farm.{is_solo}
use mvis_tokenminer.MainLoop.{MainLoop, change_challenge, change_target, poll, from_node}
use mvis_tokenminer.MainLoop.{seen_before, remember, diff_from_target}
use mvis_tokenminer.MainLoop.Polling.{polled, polls}

abbrev pub Distinct : List (List ℕ) → Type 0
Distinct [] = Unit
Distinct (c ∷ cs) = (seen_before c cs ≡ false) × Distinct cs

abbrev pub newest : List (List ℕ) → List ℕ → List ℕ
newest [] c = c
newest (d ∷ ds) c = d

-- No two of the remembered challenges are the same, there are at most five of them, and the newest
-- one is the challenge of the loop.
abbrev pub Remembers : MainLoop → Type 0
Remembers s =
    Distinct s.recent_challenges
    × (length s.recent_challenges ≤ 5)
    × (newest s.recent_challenges s.challenge ≡ s.challenge)

seen_before-take :
    (c : List ℕ) (n : ℕ) (cs : List (List ℕ))
    → seen_before c cs ≡ false
    → seen_before c (take n cs) ≡ false
unfolding seen_before
seen_before-take c zero cs h = refl
seen_before-take c (suc n) [] h = refl
seen_before-take c (suc n) (d ∷ cs) h = elim (Bool-cases (list_eq d c)) [
  | inl e ↦ absurd (ground (arith, rw e at h))
  | inr e ↦ rw e (seen_before-take c n cs (rw e at h))
]

take-Distinct : (n : ℕ) (cs : List (List ℕ)) → Distinct cs → Distinct (take n cs)
take-Distinct zero cs h = tt
take-Distinct (suc n) [] h = tt
take-Distinct (suc n) (c ∷ cs) h = (seen_before-take c n cs h.0, take-Distinct n cs h.1)

length-take : (n : ℕ) (cs : List (List ℕ)) → length (take n cs) ≤ n
length-take zero cs = omega arith
length-take (suc n) [] = omega arith
length-take (suc n) (c ∷ cs) = omega (arith, length-take n cs)

change_challenge-Remembers :
    (c : List ℕ) (t : ℕ) (s : MainLoop) → Remembers s → Remembers (change_challenge solo c t s)
unfolding change_challenge remember
change_challenge-Remembers c t s h = elim (Bool-cases (list_eq c s.challenge)) [
  | inl e ↦ rw e h
  | inr e ↦ elim (Bool-cases (seen_before c s.recent_challenges)) [
    | inl k ↦ rw (e, k, solo_only) h
    | inr k ↦
        rw (e, k)
          (
            take-Distinct 5 (c ∷ s.recent_challenges) (k, h.0),
            length-take 5 (c ∷ s.recent_challenges),
            refl,
          )
  ]
]
  where
    solo_only : is_solo solo ≡ true
    solo_only = unfold is_solo in refl

change_target-Remembers : (t : ℕ) (s : MainLoop) → Remembers s → Remembers (change_target t s)
unfolding change_target
change_target-Remembers t s h = elim (Bool-cases (t == s.target)) [
  | inl e ↦ rw e h
  | inr e ↦ rw e h
]

poll-Remembers :
    (c : List ℕ) (t : ℕ) (s : MainLoop) → Remembers s → Remembers (polled (from_node c t) s)
unfolding poll
poll-Remembers c t s h = elim (Result-cases (diff_from_target (if t == 0 then s.target else t))) [
  | inl (d, e) ↦
      rw e (
        change_target-Remembers _ _
          (change_challenge-Remembers _ _ (record s { difficulty = d }) h))
  | inr (x, e) ↦ rw e h
]

-- Whatever the node answers in solo mining, the remembered challenges stay distinct and at most five,
-- with the newest in use, so the loop never goes back to one of them.
pub polls-Remembers :
    (answers : List (List ℕ × ℕ)) (s : MainLoop)
    → Remembers s
    → Remembers (polls (map (λ a. from_node a.0 a.1) answers) s)
polls-Remembers [] s h = h
polls-Remembers ((c, t) ∷ more) s h =
    polls-Remembers more (polled (from_node c t) s) (poll-Remembers c t s h)
