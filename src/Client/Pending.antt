-- ===== src/Client/Pending.antt =====
-- Which transactions still wait (ethminer/FarmClient.h).
use mvis_tokenminer.Prelude.{ℕ, zero, suc, ◌≡◌, refl, ap, ◌∙◌, sym, arith, List, [], ◌∷◌, ◌++◌}
use mvis_tokenminer.Prelude.{
  Bool, true, false, ◌&&◌, ◌||◌, if◌then◌else◌, some, inl, inr, Bool-cases,
}
use mvis_tokenminer.Prelude.{list_eq, get_elem?, length, append-nil, append_assoc, split_last}
use mvis_tokenminer.Transaction.{Transaction}
use mvis_tokenminer.Client.{
  Node, get_tx_status, is_final, find_done, erase_at, erase_loop, erase_done,
}
use mvis_tokenminer.Client.{check_pending_transactions}

-- Keeping, in order, what a test does not reject.
abbrev pub remove : (Transaction → Bool) → List Transaction → List Transaction
remove p [] = []
remove p (t ∷ ts) = if p t then remove p ts else t ∷ remove p ts

abbrev pub any : (Transaction → Bool) → List Transaction → Bool
any p [] = false
any p (t ∷ ts) = p t || any p ts

remove-append :
    (p : Transaction → Bool) (xs ys : List Transaction)
    → remove p (xs ++ ys) ≡ remove p xs ++ remove p ys
remove-append p [] ys = refl
remove-append p (x ∷ xs) ys = elim (Bool-cases (p x)) [
  | inl e ↦ rw e (remove-append p xs ys)
  | inr e ↦ rw e (ap (λ t. x ∷ t) (remove-append p xs ys))
]

get_elem?-append :
    (xs : List Transaction) (y : Transaction) (ys : List Transaction)
    → get_elem? (xs ++ (y ∷ ys)) (length xs) ≡ some y
get_elem?-append [] y ys = refl
get_elem?-append (x ∷ xs) y ys = get_elem?-append xs y ys

erase_at-append :
    (xs : List Transaction) (y : Transaction) (ys : List Transaction)
    → erase_at (length xs) (xs ++ (y ∷ ys)) ≡ xs ++ ys
unfolding erase_at
erase_at-append [] y ys = refl
erase_at-append (x ∷ xs) y ys = ap (λ t. x ∷ t) (erase_at-append xs y ys)

same : List ℕ → Transaction → Bool
same c t = list_eq t.challenge c

erase_loop_step :
    (c : List ℕ) (k : ℕ) (xs : List Transaction) (y : Transaction) (ys : List Transaction)
    → length xs ≡ k
    → erase_loop c (suc k) (xs ++ (y ∷ ys))
      ≡ erase_loop c k (xs ++ (if same c y then ys else y ∷ ys))
unfolding same erase_loop
erase_loop_step c k xs y ys h = elim (Bool-cases (list_eq y.challenge c)) [
  | inl e ↦ rw (← h) (rw (get_elem?-append xs y ys, e, erase_at-append xs y ys) refl)
  | inr e ↦ rw (← h) (rw (get_elem?-append xs y ys, e) refl)
]

remove_last :
    (p : Transaction → Bool) (xs : List Transaction) (y : Transaction) (ys : List Transaction)
    → remove p xs ++ (if p y then ys else y ∷ ys) ≡ remove p (xs ++ (y ∷ [])) ++ ys
remove_last p xs y ys = elim (Bool-cases (p y)) [
  | inl e ↦ rw (remove-append p xs (y ∷ []), e, append-nil) refl
  | inr e ↦ rw (remove-append p xs (y ∷ []), e, append_assoc) refl
]

-- Erasing by place from the back removes what has the challenge among the first `k`.
erase_loop-remove :
    (c : List ℕ) (k : ℕ) (xs ys : List Transaction)
    → length xs ≡ k
    → erase_loop c k (xs ++ ys) ≡ remove (same c) xs ++ ys
erase_loop-remove c zero [] ys h = unfold erase_loop in refl
erase_loop-remove c zero (x ∷ xs) ys h = absurd (omega arith)
erase_loop-remove c (suc k) xs ys h =
    let (front, last, e, l) = split_last xs k h in
    rw (e, append_assoc front (last ∷ []) ys)
      (erase_loop_step c k front last ys l
        ∙ erase_loop-remove c k front _ l
        ∙ remove_last (same c) front last ys)

-- Whether the challenge is in the list.
has : List (List ℕ) → Transaction → Bool
has [] t = false
has (c ∷ cs) t = same c t || has cs t

remove_both :
    (p q : Transaction → Bool) (ts : List Transaction)
    → remove q (remove p ts) ≡ remove (λ t. p t || q t) ts
remove_both p q [] = refl
remove_both p q (t ∷ ts) = elim (Bool-cases (p t)) [
  | inl e ↦ rw e (remove_both p q ts)
  | inr e ↦ rw e (elim (Bool-cases (q t)) [
    | inl k ↦ rw k (remove_both p q ts)
    | inr k ↦ rw k (ap (λ r. t ∷ r) (remove_both p q ts))
  ])
]

erase_loop_all :
    (c : List ℕ) (ts : List Transaction) → erase_loop c (length ts) ts ≡ remove (same c) ts
erase_loop_all c ts =
    ap (erase_loop c (length ts)) (sym (append-nil ts))
    ∙ erase_loop-remove c (length ts) ts [] refl
    ∙ append-nil _

erase_done-remove :
    (cs : List (List ℕ)) (ts : List Transaction) → erase_done cs ts ≡ remove (has cs) ts
unfolding erase_done has
erase_done-remove [] [] = refl
erase_done-remove [] (t ∷ ts) = ap (λ r. t ∷ r) (erase_done-remove [] ts)
erase_done-remove (c ∷ cs) ts =
    rw (erase_loop_all c ts)
      (erase_done-remove cs (remove (same c) ts) ∙ remove_both (same c) (has cs) ts)

-- A transaction is settled when one with its challenge is done.
abbrev pub is_settled : Node → List Transaction → Transaction → Bool
is_settled node pending t =
    any (λ u. is_final (get_tx_status node u.tx_hash) && list_eq t.challenge u.challenge) pending

any-append :
    (p : Transaction → Bool) (xs ys : List Transaction) → any p (xs ++ ys) ≡ (any p xs || any p ys)
any-append p [] ys = refl
any-append p (x ∷ xs) ys = rw (any-append p xs ys) (or_assoc (p x) (any p xs) (any p ys))
  where
    or_assoc : (a b c : Bool) → (a || (b || c)) ≡ ((a || b) || c)
    or_assoc true b c = refl
    or_assoc false b c = refl

or_comm : (a b : Bool) → (a || b) ≡ (b || a)
or_comm true true = refl
or_comm true false = refl
or_comm false true = refl
or_comm false false = refl

or_false : (a : Bool) → (a || false) ≡ a
or_false true = refl
or_false false = refl

module _ (node : Node) (t : Transaction) where
  settles : Transaction → Bool
  settles u = is_final (get_tx_status node u.tx_hash) && list_eq t.challenge u.challenge

  find_done_step :
      (k : ℕ) (xs : List Transaction) (y : Transaction) (ys : List Transaction)
      → length xs ≡ k
      → has (find_done node (xs ++ (y ∷ ys)) (suc k)) t
        ≡ (settles y || has (find_done node (xs ++ (y ∷ ys)) k) t)
  unfolding settles find_done has
  find_done_step k xs y ys h = elim (Bool-cases (is_final (get_tx_status node y.tx_hash))) [
    | inl e ↦ rw (← h) (rw (get_elem?-append xs y ys, e) (unfold same in refl))
    | inr e ↦ rw (← h) (rw (get_elem?-append xs y ys, e) refl)
  ]

  -- The first loop collects the challenges of what is done.
  find_done-any :
      (k : ℕ) (xs ys : List Transaction)
      → length xs ≡ k
      → has (find_done node (xs ++ ys) k) t ≡ any settles xs
  find_done-any zero [] ys h = unfold find_done has in refl
  find_done-any zero (x ∷ xs) ys h = absurd (omega arith)
  find_done-any (suc k) xs ys h =
      let (front, last, e, l) = split_last xs k h in
      rw (e, append_assoc front (last ∷ []) ys)
        (find_done_step k front last ys l
          ∙ ap (λ b. settles last || b) (find_done-any k front (last ∷ ys) l)
          ∙ or_comm (settles last) (any settles front)
          ∙ sym (
              any-append settles front (last ∷ [])
              ∙ ap (λ b. any settles front || b) (or_false (settles last))))

remove-cong :
    (p q : Transaction → Bool) (ts : List Transaction)
    → ((t : Transaction) → p t ≡ q t)
    → remove p ts ≡ remove q ts
remove-cong p q [] h = refl
remove-cong p q (t ∷ ts) h = rw (h t, remove-cong p q ts h) refl

-- One check keeps, in order, the transactions whose challenge no transaction that the node says is
-- mined or failed has, and drops the others: erasing by index from the back skips none.
pub check_pending_transactions_lem :
    (node : Node) (pending : List Transaction)
    → check_pending_transactions node pending ≡ remove (is_settled node pending) pending
unfolding check_pending_transactions settles
check_pending_transactions_lem node pending =
    erase_done-remove (find_done node pending (length pending)) pending
    ∙ remove-cong _ _ pending (λ t.
      ap (λ ts. has (find_done node ts (length pending)) t) (sym (append-nil pending))
      ∙ find_done-any node t (length pending) pending [] refl)
