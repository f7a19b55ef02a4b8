-- ===== src/PoolLoop/Following.antt =====
-- The miners follow the client of the pool (ethminer/MinerAux.h: doStratum).
use mathlib.Core.Path.{subst}
use mvis_tokenminer.Prelude.{ℕ, ◌≡◌, ◌≢◌, ◌⊎◌, refl, sym, ◌∙◌, List, [], ok}
use mvis_tokenminer.Prelude.{
  Bool-cases, Result-cases, inl, inr, ◌==◌, list_eq, list_eq_iff, All, ==_iff,
}
use mvis_tokenminer.Miner.{pool}
use mvis_tokenminer.Farm.Work.{HasWork, Coherent, set_work-Coherent, set_work-op_mode}
use mvis_tokenminer.Farm.{set_work}
use mvis_tokenminer.MainLoop.{Choice, calc_final_target}
use mvis_tokenminer.Stratum.{get_work}
use mvis_tokenminer.PoolLoop.{
  PoolLoop, new_challenge, new_target, adopt_work, new_fee, fee_due, pool_round,
}

-- The farm, which mines for a pool, and its miners have the same work, and it is that of the loop, unless
-- the loop has no challenge yet, as at the start of `doStratum`.
abbrev pub FollowsPool : PoolLoop → Type 0
FollowsPool s =
    (s.farm.op_mode ≡ pool)
    × Coherent s.farm
    × ((s.challenge ≡ []) ⊎ ((s.farm.challenge ≡ s.challenge) × (s.farm.target ≡ s.target)))

set_work_follows :
    (c : List ℕ) (t : ℕ) (s : PoolLoop)
    → FollowsPool s
    → FollowsPool (record s { challenge = c; target = t; farm = set_work c t s.farm })
set_work_follows c t s (m, h, _) =
    let (a, b, ms) = set_work-Coherent c t s.farm h in
    (set_work-op_mode c t s.farm ∙ m, rw (a, b) ms, inr (a, b))

-- Afterwards the loop has the challenge.
new_challenge_follows :
    (c : List ℕ) (t : ℕ) (s : PoolLoop)
    → FollowsPool s
    → FollowsPool (new_challenge c t s)
      × ((new_challenge c t s).challenge ≡ c)
      × ((new_challenge c t s).client ≡ s.client)
unfolding new_challenge
new_challenge_follows c t s h = elim (Bool-cases (list_eq c s.challenge)) [
  | inl e ↦ simp e (h, sym ((list_eq_iff c s.challenge).0 e), refl)
  | inr e ↦ simp e (set_work_follows c t s h, refl, refl)
]

new_target_follows :
    (t : ℕ) (s : PoolLoop)
    → FollowsPool s
    → FollowsPool (new_target t s)
      × ((new_target t s).challenge ≡ s.challenge)
      × ((new_target t s).target ≡ t)
unfolding new_target
new_target_follows t s h = elim (Bool-cases (t == s.target)) [
  | inl e ↦ simp e (h, refl, sym ((==_iff t s.target).0 e))
  | inr e ↦ simp e (set_work_follows s.challenge t s h, refl, refl)
]

-- The loop has a challenge and a target, and follows.
abbrev pub FollowsAt : List ℕ → ℕ → PoolLoop → Type 0
FollowsAt c t s = FollowsPool s × (s.challenge ≡ c) × (s.target ≡ t)

adopt_work_follows :
    (c : List ℕ) (t d : ℕ) (s : PoolLoop) → FollowsPool s → FollowsAt c t (adopt_work c t d s)
unfolding adopt_work
adopt_work_follows c t d s h =
    let (first, same, _) = new_challenge_follows c t (record s { difficulty = d }) h in
    let (all, kept, at_target) =
      new_target_follows t (new_challenge c t (record s { difficulty = d })) first in
    (all, kept ∙ same, at_target)

-- The farm and the miners have that challenge and that target.
abbrev pub Mines : List ℕ → ℕ → PoolLoop → Type 0
Mines c t s =
    (s.farm.op_mode ≡ pool)
    × (s.challenge ≡ c)
    × (s.target ≡ t)
    × (s.farm.challenge ≡ c)
    × (s.farm.target ≡ t)
    × All (HasWork c t) s.farm.miners

-- With a challenge, the loop that follows mines for it.
pub FollowsAt-Mines : (c : List ℕ) (t : ℕ) (s : PoolLoop) → c ≢ [] → FollowsAt c t s → Mines c t s
FollowsAt-Mines c t s some_challenge ((m, ms, inl none_yet), p, q) =
    absurd (some_challenge (sym p ∙ none_yet))
FollowsAt-Mines c t s some_challenge ((m, ms, inr (a, b)), p, q) =
    let at_challenge : s.farm.challenge ≡ c = a ∙ p in
    let at_target : s.farm.target ≡ t = b ∙ q in
    (
      m,
      p,
      q,
      at_challenge,
      at_target,
      subst (λ y. All (HasWork c y) s.farm.miners) at_target
          (subst (λ x. All (HasWork x s.farm.target) s.farm.miners) at_challenge ms),
    )

new_fee_follows :
    (donation user c : List ℕ) (t now : ℕ) (s : PoolLoop)
    → FollowsAt c t s
    → FollowsAt c t (new_fee donation user now s)
unfolding new_fee
new_fee_follows donation user c t now s h = elim (Bool-cases (fee_due now s.fee)) [
  | inl e ↦ rw e h
  | inr e ↦ rw e h
]

-- A round that ends leaves the loop with the challenge of the client and the final target.
pub round_follows :
    (donation user : List ℕ) (choice : Choice) (now : ℕ) (s u : PoolLoop)
    → FollowsPool s
    → pool_round donation user choice now s ≡ ok u
    → (final : ℕ × ℕ) × (calc_final_target choice (s.client.target, s.client.difficulty) ≡ ok final)
      × FollowsAt s.client.challenge final.0 u
unfolding pool_round get_work
round_follows donation user choice now s u h e =
    elim (Result-cases (calc_final_target choice (s.client.target, s.client.difficulty))) [
      | inl (final, f) ↦ (final, f, ended final (cc (rw f at e)))
      | inr (x, f) ↦ absurd (cc (rw f at e))
    ]
  where
    ended :
        (final : ℕ × ℕ)
        → new_fee donation user now (
            adopt_work s.client.challenge final.0 final.1
              (record s { account = s.client.hashing_acct }))
          ≡ u
        → FollowsAt s.client.challenge final.0 u
    ended final same =
        subst (FollowsAt s.client.challenge final.0) same
          (new_fee_follows donation user _ _ now _ (adopt_work_follows _ _ _ _ h))
