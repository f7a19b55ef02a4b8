-- ===== src/Stratum/Retries.antt =====
-- When `EthStratumClient` gives a pool up (libstratum/EthStratumClient.cpp: reconnect).
use mvis_tokenminer.Prelude.{
  ℕ, zero, suc, ◌+◌, ◌-◌, ◌<◌, ◌≡◌, ◌≢◌, refl, sym, ap, ◌∙◌, arith, inl, inr,
}
use mvis_tokenminer.Prelude.{none, Option-cases, Bool, true, false, ◌&&◌, ◌==◌}
use mvis_tokenminer.Stratum.{Stratum, Attempt, unresolved, refused, host_and_port}
use mvis_tokenminer.Stratum.{connect_stratum, attempted, subscribed, reconnect, disconnect}
use mvis_tokenminer.Stratum.{write_stratum, readline}

-- The time to reconnect comes, and connecting ends as it is said.
abbrev pub retry : Attempt → Bool → Stratum → Stratum
retry attempt written s = connect_stratum attempt written (record s { timers = s.timers - 1 })

abbrev pub retried : Attempt → Bool → ℕ → Stratum → Stratum
retried attempt written zero s = s
retried attempt written (suc n) s = retry attempt written (retried attempt written n s)

-- What an attempt that does not give up keeps.
abbrev Keeps : Stratum → Stratum → Type 0
Keeps s t =
    (t.url ≡ s.url)
    × (t.max_retries ≡ s.max_retries)
    × (t.failover_available ≡ s.failover_available)
    × (t.running ≡ s.running)

goes_on :
    (s : Stratum)
    → (s.retries + 1 == s.max_retries && s.failover_available) ≡ false
    → Keeps s (reconnect s) × ((reconnect s).retries ≡ s.retries + 1)
unfolding reconnect
goes_on s e = rw e ((refl, refl, refl, refl), refl)

gives_up :
    (s : Stratum)
    → (s.retries + 1 == s.max_retries && s.failover_available) ≡ true
    → (reconnect s).running ≡ false
unfolding reconnect disconnect
gives_up s e = rw e refl

connect_lem :
    (attempt : Attempt) (written : Bool) (s : Stratum)
    → host_and_port s.url ≢ none
    → connect_stratum attempt written s ≡ attempted attempt written s
unfolding connect_stratum
connect_lem attempt written s h = elim (Option-cases (host_and_port s.url)) [
  | inl e ↦ absurd (h e)
  | inr (address, e) ↦ rw e refl
]

Keeps-trans : (s t u : Stratum) → Keeps s t → Keeps t u → Keeps s u
Keeps-trans s t u (a, b, c, d) (a', b', c', d') = (a' ∙ a, b' ∙ b, c' ∙ c, d' ∙ d)

not_yet : (r m : ℕ) (f : Bool) → r + 1 < m → (r + 1 == m && f) ≡ false
not_yet r m f h = ground arith

-- A refused attempt before the last one.
refused_step :
    (written : Bool) (s : Stratum)
    → host_and_port s.url ≢ none
    → s.retries + 1 < s.max_retries
    → Keeps s (retry refused written s) × ((retry refused written s).retries ≡ s.retries + 1)
unfolding attempted
refused_step written s h more =
    rw (connect_lem refused written (record s { timers = s.timers - 1 }) h) (
      goes_on (record s { timers = s.timers - 1 })
        (not_yet s.retries s.max_retries s.failover_available more))

-- A look-up that throws, after which the write fails: the count starts again.
unresolved_step :
    (s : Stratum)
    → host_and_port s.url ≢ none
    → 1 < s.max_retries
    → Keeps s (retry unresolved false s)
unfolding attempted subscribed write_stratum readline
unresolved_step s h more =
    rw (connect_lem unresolved false (record s { timers = s.timers - 1 }) h)
      (goes_on (record s { timers = s.timers - 1; connected = true; retries = 0 })
        (not_yet 0 s.max_retries s.failover_available more)).0

module _ (s : Stratum) (h : host_and_port s.url ≢ none) where
  there : (t : Stratum) → Keeps s t → host_and_port t.url ≢ none
  there t k e = h (ap host_and_port (sym k.0) ∙ e)

  refused-Keeps :
      (written : Bool) (n : ℕ)
      → s.retries + n < s.max_retries
      → Keeps s (retried refused written n s)
        × ((retried refused written n s).retries ≡ s.retries + n)
  refused-Keeps written zero more = ((refl, refl, refl, refl), omega arith)
  refused-Keeps written (suc n) more =
      let (k, r) = refused-Keeps written n (omega arith) in
      let t = retried refused written n s in
      let (k', r') = refused_step written t (there t k) (room t k r) in
      (Keeps-trans s t (retry refused written t) k k', omega (arith, r, r'))
    where
      room : (t : Stratum) → Keeps s t → t.retries ≡ s.retries + n → t.retries + 1 < t.max_retries
      room t k r = omega (arith, more, k.1, r)

  unresolved-Keeps : (n : ℕ) → 1 < s.max_retries → Keeps s (retried unresolved false n s)
  unresolved-Keeps zero more = (refl, refl, refl, refl)
  unresolved-Keeps (suc n) more =
      let k = unresolved-Keeps n more in
      let t = retried unresolved false n s in
      Keeps-trans s t (retry unresolved false t) k
        (unresolved_step t (there t k) (omega (arith, k.1, more)))

  -- With another pool to switch to, a client that runs and whose connections are refused runs on until
  -- the count of retries reaches the limit, and stops running then.
  pub retried-refused :
      (written : Bool) (n : ℕ)
      → s.running ≡ true
      → s.failover_available ≡ true
      → s.retries + suc n ≡ s.max_retries
      → ((retried refused written n s).running ≡ true)
        × ((retried refused written (suc n) s).running ≡ false)
  unfolding attempted
  retried-refused written n on failover last =
      let (k, r) = refused-Keeps written n (omega arith) in
      let t = retried refused written n s in
      let waits = record t { timers = t.timers - 1 } in
      (
        k.3 ∙ on,
        rw (connect_lem refused written waits (there t k))
            (gives_up waits (at_limit t k r failover last)),
      )
    where
      at_limit :
          (t : Stratum)
          → Keeps s t
          → t.retries ≡ s.retries + n
          → s.failover_available ≡ true
          → s.retries + suc n ≡ s.max_retries
          → (t.retries + 1 == t.max_retries && t.failover_available) ≡ true
      at_limit t k r f l = ground (arith, r, k.1, k.2, f, l)

  -- A client whose look-ups throw, so that it writes to a socket that is not connected, never gives a
  -- pool up, however often it tries, if it runs and the limit of retries is above one.
  pub retried-unresolved :
      (n : ℕ) → s.running ≡ true → 1 < s.max_retries → (retried unresolved false n s).running ≡ true
  retried-unresolved n on more = (unresolved-Keeps n more).3 ∙ on
