-- ===== src/Stratum/Alive.antt =====
-- The handlers of `EthStratumClient` and the calls of the main loop as steps in any order
-- (libstratum/EthStratumClient.cpp): whether something is left that will run.
use mvis_tokenminer.Prelude.{ℕ, ◌+◌, ◌-◌, ◌<◌, ◌≡◌, ◌⊎◌, inl, inr, refl, sym, ap, arith, List}
use mvis_tokenminer.Prelude.{
  some, Bool, true, false, Bool-cases, ◌≢◌, none, ◌&&◌, ◌==◌, Option-cases,
}
use mvis_tokenminer.Prelude.{list_eq, if◌then◌else◌}
use mathlib.Core.Path.{subst}
use mvis_tokenminer.Stratum.{Stratum, Request, Attempt, unresolved, refused, accepted, Message}
use mvis_tokenminer.Stratum.{
  Reception, failed, garbled, line, host_and_port, connect_stratum, attempted,
}
use mvis_tokenminer.Stratum.{
  read_response, process_response, take_work, login_answer, share_answer, notification, submit_work,
  switch_acct, is_connected,
}
use mvis_tokenminer.Stratum.{disconnect, reconnect, write_stratum, subscribed, readline, launch}
use mvis_tokenminer.Stratum.{valid_input, notify}

-- An answer to the subscription or to a share has a Boolean result, and a text as the reason if that is
-- false.
abbrev pub IsAnswer : Message → Type 0
IsAnswer m =
    (b : Bool) × (m.result ≡ some b) × ((b ≡ true) ⊎ ((reason : List ℕ) × (m.reason ≡ some reason)))

-- The four parameters of new work, of which the target is a number.
abbrev pub IsWork : Message → Type 0
IsWork m =
    ((c : List ℕ) × (m.challenge ≡ some c))
    × ((t : ℕ) × (m.target ≡ some t))
    × ((d : ℕ) × (m.difficulty ≡ some d))
    × ((acct : List ℕ) × (m.hashing_acct ≡ some acct))

-- A notification has a method, and the parameters if it brings work.
abbrev pub IsNotification : Message → Type 0
IsNotification m =
    (method : List ℕ) × (m.method ≡ some method) × ((list_eq method notify ≡ false) ⊎ IsWork m)

-- What a pool is to send: a number, and what belongs to it; nothing of a message that has both a result
-- and an error, which is refused first.
abbrev pub IsReadable : Message → Type 0
IsReadable m =
    (valid_input m ≡ false)
    ⊎ ((id : ℕ) × (m.id ≡ some id)
        × ((((id ≡ 1) ⊎ (id ≡ 4)) × IsAnswer m) ⊎ ((id ≢ 1) × (id ≢ 4) × IsNotification m)))

abbrev pub IsHandled : Reception → Type 0
IsHandled failed = Unit
IsHandled garbled = Unit
IsHandled (line m) = IsReadable m

-- The thread of the client runs a handler whose event came, while it runs at all; the main loop
-- submits a share and switches the account.
pub data Step (s : Stratum) : Stratum → Type 0 where
  timer :
      (attempt : Attempt) (written : Bool)
      → s.running ≡ true
      → 0 < s.timers
      → Step s (connect_stratum attempt written (record s { timers = s.timers - 1 }))
  read :
      (r : Reception)
      → s.running ≡ true
      → 0 < s.reads
      → IsHandled r
      → Step s (read_response r (record s { reads = s.reads - 1 }))
  share :
      (nonce hash challenge : List ℕ) (difficulty : ℕ) (written : Bool)
      → Step s (submit_work nonce hash challenge difficulty written s)
  switch : (acct : List ℕ) → Step s (switch_acct acct s)
  stop : Step s (disconnect s)

pub data Reach (s : Stratum) : Stratum → Type 0 where
  here : Reach s s
  next : {t u : Stratum} → Reach s t → Step t u → Reach s u

-- The address has a port, and a client that runs waits for the time to reconnect, or is connected and
-- waits for a line.
abbrev pub IsAlive : Stratum → Type 0
IsAlive s =
    (host_and_port s.url ≢ none)
    × ((s.running ≡ false) ⊎ ((0 < s.timers) ⊎ ((s.connected ≡ true) × (0 < s.reads))))

-- The same while a handler runs, with the line that it had asked for taken.
abbrev Ready : Stratum → Type 0
Ready s =
    (host_and_port s.url ≢ none) × ((s.running ≡ false) ⊎ ((0 < s.timers) ⊎ (s.connected ≡ true)))

Ready-taken : (s : Stratum) → IsAlive s → Ready (record s { reads = s.reads - 1 })
Ready-taken s (h, inl off) = (h, inl off)
Ready-taken s (h, inr (inl waits)) = (h, inr (inl waits))
Ready-taken s (h, inr (inr (on, reads))) = (h, inr (inr on))

readline-IsAlive : (s : Stratum) → IsAlive s → IsAlive (readline s)
unfolding readline
readline-IsAlive s (h, inl off) = (h, inl off)
readline-IsAlive s (h, inr (inl waits)) = (h, inr (inl waits))
readline-IsAlive s (h, inr (inr (on, reads))) = (h, inr (inr (on, omega arith)))

-- What `readResponse` does last.
asked_again : (s : Stratum) → Ready s → IsAlive (if s.connected then readline s else s)
unfolding readline
asked_again s (h, k) = elim (Bool-cases s.connected) [
  | inl on ↦ simp on (h, inr (inr (refl, omega arith)))
  | inr off ↦ simp off (elim k [
    | inl stopped ↦ (h, inl stopped)
    | inr (inl waits) ↦ (h, inr (inl waits))
    | inr (inr on) ↦ absurd (cc)
  ])
]

-- Giving the connection up, or waiting to take it up again.
reconnect-IsAlive : (s : Stratum) → host_and_port s.url ≢ none → IsAlive (reconnect s)
unfolding reconnect disconnect
reconnect-IsAlive s h = elim (Bool-cases (s.retries + 1 == s.max_retries && s.failover_available)) [
  | inl e ↦ rw e (h, inl refl)
  | inr e ↦ rw e (h, inr (inl (omega arith)))
]

subscribed-IsAlive :
    (written : Bool) (s : Stratum) → host_and_port s.url ≢ none → IsAlive (subscribed written s)
unfolding subscribed readline write_stratum
subscribed-IsAlive true s h = (h, inr (inr (refl, omega arith)))
subscribed-IsAlive false s h =
    let joined = record s { connected = true; retries = 0 } in
    readline-IsAlive (reconnect joined) (reconnect-IsAlive joined h)

attempted-IsAlive :
    (attempt : Attempt) (written : Bool) (s : Stratum)
    → host_and_port s.url ≢ none
    → IsAlive (attempted attempt written s)
unfolding attempted
attempted-IsAlive unresolved written s h = subscribed-IsAlive written s h
attempted-IsAlive refused written s h = reconnect-IsAlive s h
attempted-IsAlive accepted written s h = subscribed-IsAlive written s h

connect_stratum-IsAlive :
    (attempt : Attempt) (written : Bool) (s : Stratum)
    → host_and_port s.url ≢ none
    → IsAlive (connect_stratum attempt written s)
unfolding connect_stratum
connect_stratum-IsAlive attempt written s h = elim (Option-cases (host_and_port s.url)) [
  | inl e ↦ absurd (h e)
  | inr (address, e) ↦ rw e (attempted-IsAlive attempt written s h)
]

reconnect-Ready : (s : Stratum) → host_and_port s.url ≢ none → Ready (reconnect s)
unfolding reconnect disconnect
reconnect-Ready s h = elim (Bool-cases (s.retries + 1 == s.max_retries && s.failover_available)) [
  | inl e ↦ rw e (h, inl refl)
  | inr e ↦ rw e (h, inr (inl (omega arith)))
]

-- What is handled throws nothing, and leaves the client ready.
abbrev Quiet : Bool × Stratum → Type 0
Quiet done = (done.0 ≡ false) × Ready done.1

login_answer-Quiet : (m : Message) (s : Stratum) → IsAnswer m → Ready s → Quiet (login_answer m s)
unfolding login_answer
login_answer-Quiet m s (true, e, why) h = rw e (refl, h)
login_answer-Quiet m s (false, e, inl wrong) h = cc wrong
login_answer-Quiet m s (false, e, inr (reason, f)) h = rw (e, f) (refl, reconnect-Ready s h.0)

share_answer-Quiet : (m : Message) (s : Stratum) → IsAnswer m → Ready s → Quiet (share_answer m s)
unfolding share_answer
share_answer-Quiet m s (true, e, why) h = rw e (refl, h)
share_answer-Quiet m s (false, e, inl wrong) h = cc wrong
share_answer-Quiet m s (false, e, inr (reason, f)) h = rw (e, f) (refl, h)

notification-Quiet :
    (m : Message) (s : Stratum) → IsNotification m → Ready s → Quiet (notification m s)
unfolding notification take_work
notification-Quiet m s (method, e, k) h = elim (Bool-cases (list_eq method notify)) [
  | inr other ↦ simp (e, other) (refl, h)
  | inl work ↦ elim k [
    | inl not_work ↦ absurd (cc)
    | inr ((c, f), (t, g), (d, i), (acct, j)) ↦ simp (e, work, f, g, i, j) (refl, h)
  ]
]

processed :
    (m : Message) (s : Stratum) → IsHandled (line m) → Ready s → Quiet (process_response m s)
unfolding process_response
processed m s (inl bad) ready = rw bad (refl, ready)
processed m s (inr (id, e, k)) ready = elim (Bool-cases (valid_input m)) [
  | inr bad ↦ rw bad (refl, ready)
  | inl good ↦ elim k [
    | inl (inl one, a) ↦ simp (good, e, one) (login_answer-Quiet m s a ready)
    | inl (inr four, a) ↦ simp (good, e, four) (share_answer-Quiet m s a ready)
    | inr (not_one, not_four, n) ↦
        let p : (id == 1) ≡ false = ground (arith, not_one) in
        let q : (id == 4) ≡ false = ground (arith, not_four) in
        simp (good, e, p, q) (notification-Quiet m s n ready)
  ]
]

waiting : (s : Stratum) → s.connected ≡ false → Ready s → IsAlive s
waiting s apart (h, inl stopped) = (h, inl stopped)
waiting s apart (h, inr (inl waits)) = (h, inr (inl waits))
waiting s apart (h, inr (inr on)) = absurd (cc)

read_response-IsAlive :
    (r : Reception) (s : Stratum)
    → IsHandled r
    → s.running ≡ true
    → Ready s
    → IsAlive (read_response r s)
unfolding read_response
read_response-IsAlive failed s handled on ready = elim (Bool-cases s.connected) [
  | inl joined ↦ ground (arith, reconnect-IsAlive s ready.0, on, joined)
  | inr apart ↦
      let off : (s.running && s.connected) ≡ false = ground (arith, apart) in
      subst IsAlive (sym (ap (λ b. if b then reconnect s else s) off)) (waiting s apart ready)
]
read_response-IsAlive garbled s handled on ready = asked_again s ready
read_response-IsAlive (line m) s handled on ready =
    let (quiet, after) = processed m s handled ready in
    rw quiet (asked_again (process_response m s).1 after)

write_stratum-IsAlive :
    (m : Request) (written : Bool) (s : Stratum) → IsAlive s → IsAlive (write_stratum m written s)
unfolding write_stratum
write_stratum-IsAlive m true s h = h
write_stratum-IsAlive m false s h = reconnect-IsAlive s h.0

submit_work-IsAlive :
    (nonce hash challenge : List ℕ) (difficulty : ℕ) (written : Bool) (s : Stratum)
    → IsAlive s
    → IsAlive (submit_work nonce hash challenge difficulty written s)
unfolding submit_work
submit_work-IsAlive nonce hash challenge difficulty written s h =
    elim (Bool-cases (is_connected s)) [
      | inl on ↦ rw on (write_stratum-IsAlive _ written s h)
      | inr off ↦ rw off h
    ]

Step-IsAlive : {s t : Stratum} → Step s t → IsAlive s → IsAlive t
unfolding switch_acct disconnect
Step-IsAlive {s = s} (timer attempt written on waits) h =
    connect_stratum-IsAlive attempt written (record s { timers = s.timers - 1 }) h.0
Step-IsAlive {s = s} (read r on reads handled) h =
    read_response-IsAlive r (record s { reads = s.reads - 1 }) handled on (Ready-taken s h)
Step-IsAlive {s = s} (share nonce hash challenge difficulty written) h =
    submit_work-IsAlive nonce hash challenge difficulty written s h
Step-IsAlive (switch acct) h = h
Step-IsAlive stop h = (h.0, inl refl)

Reach-keeps : {s t : Stratum} → IsAlive s → Reach s t → IsAlive t
Reach-keeps h here = h
Reach-keeps h (next r step) = Step-IsAlive step (Reach-keeps h r)

launch-IsAlive :
    (attempt : Attempt) (written : Bool) (s : Stratum)
    → host_and_port s.url ≢ none
    → IsAlive (launch attempt written s)
unfolding launch
launch-IsAlive attempt written s h =
    connect_stratum-IsAlive attempt written (record s { running = true }) h

-- In whatever order the handlers and the calls of the main loop come, a client whose address has a
-- port and that runs waits for the time to reconnect, or is connected and waits for a line, after it
-- is launched, as long as the conversions of each JSON message that is handled throw nothing: it has a
-- number, an answer to the subscription or to a share a Boolean and with false a reason, and any other a
-- method, and with new work four parameters of which the target is a number.
pub Reach-IsAlive :
    (attempt : Attempt) (written : Bool) (s : Stratum) {t : Stratum}
    → host_and_port s.url ≢ none
    → Reach (launch attempt written s) t
    → IsAlive t
Reach-IsAlive attempt written s h r = Reach-keeps (launch-IsAlive attempt written s h) r
