-- ===== src/Client/Nonces.antt =====
-- The nonces of the transactions that a client sends, and the file that keeps two miners from
-- submitting for one challenge (ethminer/FarmClient.h).
use mvis_tokenminer.Prelude.{
  ℕ, ◌+◌, ◌-◌, ◌*◌, ◌≤◌, ◌≡◌, refl, ap, ◌∙◌, sym, arith, List, [], ◌∷◌, ◌++◌,
}
use mvis_tokenminer.Prelude.{
  true, some, none, ◌⊎◌, inl, inr, Bool-cases, Result-cases, Option-cases,
}
use mvis_tokenminer.Prelude.{list_eq_iff}
use native.Mathlib.Nat.{add-zero, add_assoc}
use mvis_tokenminer.Hex.{to_hex, dont_add}
use mvis_tokenminer.Transaction.{Transaction, rlp, generate_payload}
use mvis_tokenminer.Transaction.Signing.{sign_keeps}
use mvis_tokenminer.Client.{
  readable, written, Client, Outside, Outcome, taken, thrown, sent, is_taken, share_challenge,
}
use mvis_tokenminer.Client.{choose_nonce, prepare, tx_sign_send, submit_with, submit_work_solo}

-- A transaction that is sent is the one that was prepared, but for its signature and its hash.
tx_sign_send_keeps :
    (o : Outside) (t : Transaction)
    → (tx_sign_send o t ≡ none)
      ⊎ ((t' : Transaction) × (tx_sign_send o t ≡ some t') × (t'.nonce ≡ t.nonce))
unfolding tx_sign_send
tx_sign_send_keeps o t = elim (sign_keeps o.sha3 o.sign_compact t) [
  | inl (signed, e, k) ↦ elim (Result-cases (rlp generate_payload signed)) [
    | inl (bytes, r) ↦ elim (Option-cases (o.send_raw bytes)) [
      | inl z ↦ inl (rw (e, r, z) refl)
      | inr (tx_hash, z) ↦ inr (
        record signed { tx_hash = tx_hash },
        rw (e, r, z) refl,
        ap (λ (u : Transaction). u.nonce) k,
      )
    ]
    | inr (x, r) ↦ inl (rw (e, r) refl)
  ]
  | inr (x, e) ↦ inl (rw e refl)
]

-- The nonces of a list ascend from `lo` on and are below `hi`.
abbrev pub Ascending : ℕ → List Transaction → ℕ → Type 0
Ascending lo [] hi = lo ≤ hi
Ascending lo (t ∷ ts) hi = (lo ≤ t.nonce) × Ascending (t.nonce + 1) ts hi

Ascending-append :
    (lo : ℕ) (ts : List Transaction) (hi : ℕ) (t : Transaction)
    → Ascending lo ts hi
    → hi ≤ t.nonce
    → Ascending lo (ts ++ (t ∷ [])) (t.nonce + 1)
Ascending-append lo [] hi t h k = (omega arith, omega arith)
Ascending-append lo (u ∷ ts) hi t h k = (h.0, Ascending-append (u.nonce + 1) ts hi t h.1 k)

Ascending-le :
    (lo : ℕ) (ts : List Transaction) (hi hi' : ℕ)
    → Ascending lo ts hi
    → hi ≤ hi'
    → Ascending lo ts hi'
Ascending-le lo [] hi hi' h k = omega arith
Ascending-le lo (u ∷ ts) hi hi' h k = (h.0, Ascending-le (u.nonce + 1) ts hi hi' h.1 k)

-- One call of `submitWorkSolo`.
pub record Attempt : Type 0 where
  pub outside : Outside
  pub solution : List ℕ
  pub hash : List ℕ
  pub challenge : List ℕ

abbrev pub attempt : Attempt → Client → Outcome × Client
attempt a c = submit_work_solo a.outside a.solution a.hash a.challenge c

-- The client after the attempts, and how many of them another miner had not made before.
abbrev pub counted : Outcome → ℕ
counted taken = 0
counted thrown = 1
counted sent = 1

abbrev pub attempts : List Attempt → Client → ℕ × Client
attempts [] c = (0, c)
attempts (a ∷ rest) c =
    let done = attempts rest (attempt a c).1 in (counted (attempt a c).0 + done.0, done.1)

-- No two attempts are more than five minutes apart.
abbrev pub InSession : List Attempt → Client → Type 0
InSession [] c = Unit
InSession (a ∷ rest) c = (a.outside.now - c.last_solution ≤ 5 * 60) × InSession rest (attempt a c).1

-- The last nonce is `k`, and the transactions that wait have ascending nonces up to it.
abbrev pub IsNumbered : ℕ → Client → Type 0
IsNumbered k c = (c.tx_nonce ≡ some k) × Ascending 0 c.pending_txs (k + 1)

-- What one attempt does to the nonce.
abbrev Numbered : ℕ → Outcome × Client → Type 0
Numbered k p = IsNumbered (k + counted p.0) p.1

submit_with-Numbered :
    (a : Attempt) (k : ℕ) (c : Client)
    → IsNumbered k c
    → Numbered k (submit_with a.outside a.solution a.hash a.challenge (k + 1) c)
unfolding submit_with
submit_with-Numbered a k c h =
    elim (tx_sign_send_keeps a.outside
      (prepare a.outside (k + 1) a.solution a.hash a.challenge c)) [
        | inl e ↦ rw e (refl, Ascending-le 0 c.pending_txs (k + 1) (k + 1 + 1) h.1 (omega arith))
        | inr (t, e, n) ↦
            let n' : t.nonce ≡ k + 1 = unfold prepare in n in
            rw e (
              refl,
              Ascending-le 0 (c.pending_txs ++ (t ∷ [])) (t.nonce + 1) (k + 1 + 1)
                  (Ascending-append 0 c.pending_txs (k + 1) t h.1 (omega (arith, n')))
                  (omega (arith, n')),
            )
      ]

choose_nonce_next :
    (o : Outside) (c : Client) (k : ℕ)
    → c.tx_nonce ≡ some k
    → o.now - c.last_solution ≤ 5 * 60
    → choose_nonce o c ≡ some (k + 1)
unfolding choose_nonce
choose_nonce_next o c k e h = rw e (ground (arith, h))

shared_keeps :
    (o : Outside) (challenge : List ℕ) (c : Client) (k : ℕ)
    → IsNumbered k c
    → IsNumbered k (share_challenge o challenge c)
unfolding share_challenge
shared_keeps o challenge c k h = elim (Bool-cases o.has_folder) [ inl e ↦ rw e h | inr e ↦ rw e h ]

shared_time :
    (o : Outside) (challenge : List ℕ) (c : Client)
    → (share_challenge o challenge c).last_solution ≡ c.last_solution
unfolding share_challenge
shared_time o challenge c = elim (Bool-cases o.has_folder) [ inl e ↦ rw e refl | inr e ↦ rw e refl ]

attempt-Numbered :
    (a : Attempt) (k : ℕ) (c : Client)
    → IsNumbered k c
    → a.outside.now - c.last_solution ≤ 5 * 60
    → Numbered k (attempt a c)
unfolding submit_work_solo
attempt-Numbered a k c h quick = elim (Bool-cases (is_taken a.outside a.challenge c)) [
  | inl e ↦ rw (e, add-zero k) h
  | inr e ↦
      let shared = share_challenge a.outside a.challenge c in
      let held = shared_keeps a.outside a.challenge c k h in
      let soon : a.outside.now - shared.last_solution ≤ 5 * 60 =
        omega (arith, quick, shared_time a.outside a.challenge c) in
      rw (e, choose_nonce_next a.outside shared k held.0 soon)
        (submit_with-Numbered a k shared held)
]

-- While no two attempts are more than five minutes apart, each attempt that finds its challenge free
-- takes the next nonce, whether the node takes the transaction or not, and the transactions that wait
-- have ascending nonces, none of them twice, if they had before.
pub attempts-IsNumbered :
    (more : List Attempt) (k : ℕ) (c : Client)
    → IsNumbered k c
    → InSession more c
    → IsNumbered (k + (attempts more c).0) (attempts more c).1
attempts-IsNumbered [] k c h quick = rw (add-zero k) h
attempts-IsNumbered (a ∷ more) k c h quick =
    rw (← add_assoc k (counted (attempt a c).0) (attempts more (attempt a c).1).0) (
      attempts-IsNumbered more (k + counted (attempt a c).0) (attempt a c).1
        (attempt-Numbered a k c h quick.0) quick.1)

line_taken :
    (o : Outside) (challenge : List ℕ) (c : Client)
    → o.has_folder ≡ true
    → o.file_read ≡ readable
    → c.challenge_file ≡ some (to_hex challenge 2 dont_add)
    → is_taken o challenge c ≡ true
unfolding is_taken
line_taken o challenge c e r h = rw (e, r, h) ((list_eq_iff _ _).1 refl)

taken_line :
    (o : Outside) (challenge : List ℕ) (c : Client)
    → o.has_folder ≡ true
    → o.file_read ≡ readable
    → is_taken o challenge c ≡ true
    → c.challenge_file ≡ some (to_hex challenge 2 dont_add)
unfolding is_taken
taken_line o challenge c e r h = elim (Option-cases c.challenge_file) [
  | inl z ↦ absurd (ground (arith, rw (e, r, z) at h))
  | inr (line, z) ↦
      z ∙ ap some ((list_eq_iff line (to_hex challenge 2 dont_add)).0 (rw (e, r, z) at h))
]

submit_with_line :
    (o : Outside) (solution hash challenge : List ℕ) (n : ℕ) (c : Client)
    → (submit_with o solution hash challenge n c).1.challenge_file ≡ c.challenge_file
unfolding submit_with
submit_with_line o solution hash challenge n c =
    elim (Option-cases (tx_sign_send o (prepare o n solution hash challenge c))) [
      | inl e ↦ rw e refl
      | inr (t, e) ↦ rw e refl
    ]

shared_line :
    (o : Outside) (challenge : List ℕ) (c : Client)
    → o.has_folder ≡ true
    → o.file_read ≡ readable
    → o.file_write ≡ written
    → (share_challenge o challenge c).challenge_file ≡ some (to_hex challenge 2 dont_add)
unfolding share_challenge
shared_line o challenge c e r w = rw (e, r, w) refl

-- Where its file is read and written, it has the challenge after an attempt, whatever comes of that.
line_after :
    (a : Attempt) (c : Client)
    → a.outside.has_folder ≡ true
    → a.outside.file_read ≡ readable
    → a.outside.file_write ≡ written
    → (attempt a c).1.challenge_file ≡ some (to_hex a.challenge 2 dont_add)
unfolding submit_work_solo
line_after a c e r w = elim (Bool-cases (is_taken a.outside a.challenge c)) [
  | inl old ↦ rw old (taken_line a.outside a.challenge c e r old)
  | inr new ↦
      let shared = share_challenge a.outside a.challenge c in
      elim (Option-cases (choose_nonce a.outside shared)) [
        | inl z ↦ rw (new, z) (shared_line a.outside a.challenge c e r w)
        | inr (n, z) ↦
            rw (new, z)
              (submit_with_line a.outside a.solution a.hash a.challenge n shared
                ∙ shared_line a.outside a.challenge c e r w)
      ]
]

-- Miners that share the folder submit for a challenge at most once: after one of them had a turn
-- with it, whatever came of that, the next one that has the challenge finds it taken and sends
-- nothing, if the first one could look at the file and wrote what it had to, and the next one can read
-- the file.
pub submit_work_solo_once :
    (first second : Attempt) (c d : Client)
    → first.outside.has_folder ≡ true
    → first.outside.file_read ≡ readable
    → first.outside.file_write ≡ written
    → second.outside.has_folder ≡ true
    → second.outside.file_read ≡ readable
    → second.challenge ≡ first.challenge
    → let left = (attempt first c).1.challenge_file in
      attempt second (record d { challenge_file = left })
      ≡ (taken, record d { challenge_file = left })
unfolding submit_work_solo
submit_work_solo_once first second c d e r w f q same =
    rw
      (line_taken second.outside second.challenge
        (record d { challenge_file = (attempt first c).1.challenge_file }) f q
        (line_after first c e r w ∙ ap (λ x. some (to_hex x 2 dont_add)) (sym same)))
      refl
