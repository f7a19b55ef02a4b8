-- ===== src/Stratum.antt =====
-- `EthStratumClient` (libstratum/EthStratumClient.h, EthStratumClient.cpp): the connection to a pool,
-- kept by handlers that one thread runs as their events come, and the calls of the main loop. Sockets,
-- the JSON reader and the clock are outside: what they answer is an argument.
pub mod Alive
pub mod Retries
pub mod Address
use mvis_tokenminer.Prelude.{ℕ, zero, suc, ◌+◌, ◌-◌, List, [], ◌∷◌, ◌++◌, Option, none, some}
use mvis_tokenminer.Prelude.{Bool, true, false, ◌&&◌, not, ◌==◌, if◌then◌else◌, list_eq}
use mvis_tokenminer.Hex.{from_hex, dont_throw, read_bytes}

-- What is sent to the pool.
pub data Request : Type 0 where
  subscribe : List ℕ → Request
  submit : List ℕ → List ℕ → List ℕ → ℕ → List ℕ → Request

-- The fields of the client. `timers` and `reads` count the handlers that wait for the time to
-- reconnect and for a line; `sent` is what was written to the socket, the last first.
pub record Stratum : Type 0 where
  pub url : List ℕ
  pub user_acct : List ℕ
  pub share_acct : List ℕ
  pub authorized : Bool
  pub connected : Bool
  pub running : Bool
  pub retries : ℕ
  pub max_retries : ℕ
  pub failover_available : Bool
  pub challenge : List ℕ
  pub target : ℕ
  pub difficulty : ℕ
  pub hashing_acct : List ℕ
  pub timers : ℕ
  pub reads : ℕ
  pub sent : List Request

-- `c_StopWorkAt`
abbrev pub stop_work_at : ℕ
stop_work_at = 4

-- The constructor, before `launchIOS`.
unfoldable pub new_client : List ℕ → ℕ → List ℕ → Stratum
new_client url retries user_acct = record {
  url = url;
  user_acct = user_acct;
  share_acct = user_acct;
  authorized = false;
  connected = false;
  running = false;
  retries = 0;
  max_retries = if not (retries == 0) then retries else stop_work_at;
  failover_available = not (retries == 0);
  challenge = [];
  target = 0;
  difficulty = 0;
  hashing_acct = [];
  timers = 0;
  reads = 0;
  sent = [];
}

-- What stands behind `://`, if the text begins with it.
abbrev pub behind_mark : List ℕ → Option (List ℕ)
behind_mark (a ∷ b ∷ c ∷ rest) = if a == b':' && (b == b'/' && c == b'/') then some rest else none
behind_mark _ = none

abbrev pub or_else {ℓ} : {A : Type ℓ} → Option A → Option A → Option A
or_else (some a) o = some a
or_else none o = o

-- What stands behind the first `://`, if there is one.
unfoldable pub after_scheme : List ℕ → Option (List ℕ)
after_scheme [] = none
after_scheme (c ∷ rest) = or_else (behind_mark (c ∷ rest)) (after_scheme rest)

-- The parts with one more character in front, where the rest has no colon the first one if that is it.
abbrev pub put_before : ℕ → List ℕ → Option (List ℕ × List ℕ) → Option (List ℕ × List ℕ)
put_before c rest (some (host, port)) = some (c ∷ host, port)
put_before c rest none = if c == b':' then some ([], rest) else none

-- The parts before and behind the last colon, if there is one.
unfoldable pub split_at_colon : List ℕ → Option (List ℕ × List ℕ)
split_at_colon [] = none
split_at_colon (c ∷ rest) = put_before c rest (split_at_colon rest)

abbrev pub some_port : Option (List ℕ × List ℕ) → Option (List ℕ × List ℕ)
some_port none = none
some_port (some (host, [])) = none
some_port (some (host, d ∷ port)) = some (host, d ∷ port)

abbrev pub without_scheme : List ℕ → Option (List ℕ) → List ℕ
without_scheme url none = url
without_scheme url (some rest) = rest

-- The host and the port of the address; none where the source finds no port.
unfoldable pub host_and_port : List ℕ → Option (List ℕ × List ℕ)
host_and_port url = some_port (split_at_colon (without_scheme url (after_scheme url)))

pub disconnect : Stratum → Stratum
disconnect s = record s { connected = false; authorized = false; running = false }

pub reconnect : Stratum → Stratum
reconnect s =
    if s.retries + 1 == s.max_retries && s.failover_available
    then disconnect (record s { retries = s.retries + 1 })
    else record s { retries = s.retries + 1; timers = s.timers + 1; connected = false }

-- `writeStratum`, where the write succeeds or fails.
unfoldable pub write_stratum : Request → Bool → Stratum → Stratum
write_stratum m written s = if written then record s { sent = m ∷ s.sent } else reconnect s

unfoldable pub readline : Stratum → Stratum
readline s = record s { reads = s.reads + 1 }

-- How connecting ends: looking up the host throws, the connection is refused, or it is there.
pub data Attempt : Type 0 where
  unresolved : Attempt
  refused : Attempt
  accepted : Attempt

-- What follows a connection that reported no error. An exception of the lookup is caught, and reports
-- none.
unfoldable pub subscribed : Bool → Stratum → Stratum
subscribed written s =
    readline
      (write_stratum (subscribe s.user_acct) written (record s { connected = true; retries = 0 }))

unfoldable pub attempted : Attempt → Bool → Stratum → Stratum
attempted unresolved written s = subscribed written s
attempted refused written s = reconnect s
attempted accepted written s = subscribed written s

abbrev pub with_address : Option (List ℕ × List ℕ) → Stratum → Stratum → Stratum
with_address none s t = s
with_address (some address) s t = t

-- `connectStratum`, which returns at once where the address has no port.
unfoldable pub connect_stratum : Attempt → Bool → Stratum → Stratum
connect_stratum attempt written s =
    with_address (host_and_port s.url) s (attempted attempt written s)

-- `launchIOS`, up to the loop of its thread.
unfoldable pub launch : Attempt → Bool → Stratum → Stratum
launch attempt written s = connect_stratum attempt written (record s { running = true })

-- What the JSON reader finds in a line: whether the members are there, the number as `asInt` gives it,
-- the result, the reason of an error, the method, and the four parameters. None stands for a value that
-- the conversion refuses with an exception.
pub record Message : Type 0 where
  pub has_result : Bool
  pub has_error : Bool
  pub id : Option ℕ
  pub result : Option Bool
  pub reason : Option (List ℕ)
  pub method : Option (List ℕ)
  pub challenge : Option (List ℕ)
  pub target : Option ℕ
  pub difficulty : Option ℕ
  pub hashing_acct : Option (List ℕ)

-- `mining.notify`
abbrev pub notify : List ℕ
notify =
    b'm' ∷ b'i' ∷ b'n' ∷ b'i' ∷ b'n' ∷ b'g' ∷ b'.' ∷ b'n' ∷ b'o' ∷ b't' ∷ b'i' ∷ b'f' ∷ b'y' ∷ []

unfoldable pub valid_input : Message → Bool
valid_input m = not (m.has_result && m.has_error)

-- The next part of the work, if its conversion throws nothing; what was taken before stays.
abbrev pub or_throws {ℓ} : {A : Type ℓ} → Option A → Stratum → (A → Bool × Stratum) → Bool × Stratum
or_throws none s next = (true, s)
or_throws (some a) s next = next a

-- The branch for new work.
unfoldable pub take_work : Message → Stratum → Bool × Stratum
take_work m s = or_throws m.challenge s with_challenge
  where
    with_acct : Stratum → List ℕ → Bool × Stratum
    with_acct u acct = (false, record u { hashing_acct = acct })

    with_difficulty : Stratum → ℕ → Bool × Stratum
    with_difficulty u d =
        let v = record u { difficulty = d } in or_throws m.hashing_acct v (with_acct v)

    with_target : Stratum → ℕ → Bool × Stratum
    with_target u t =
        let v = record u { target = t } in or_throws m.difficulty v (with_difficulty v)

    with_challenge : List ℕ → Bool × Stratum
    with_challenge c =
        let u = record s { challenge = read_bytes (from_hex c dont_throw) } in
        or_throws m.target u (with_target u)

-- The answer to the subscription; the reason is read before the connection is given up.
pub login_answer : Message → Stratum → Bool × Stratum
login_answer m s = or_throws m.result s (λ accepts.
    if accepts
    then (false, record s { authorized = true })
    else or_throws m.reason s (λ reason. (false, reconnect s)))

-- The answer to a share.
pub share_answer : Message → Stratum → Bool × Stratum
share_answer m s =
    or_throws m.result s
      (λ accepts. if accepts then (false, s) else or_throws m.reason s (λ reason. (false, s)))

unfoldable pub notification : Message → Stratum → Bool × Stratum
notification m s =
    or_throws m.method s (λ method. if list_eq method notify then take_work m s else (false, s))

-- `processReponse`; the first part says whether it throws.
unfoldable pub process_response : Message → Stratum → Bool × Stratum
process_response m s =
    if not (valid_input m)
    then (false, s)
    else or_throws m.id s (λ id.
      if id == 1 then login_answer m s else if id == 4 then share_answer m s else notification m s)

-- What a read ends with: an error, a line that is no JSON object, or a message.
pub data Reception : Type 0 where
  failed : Reception
  garbled : Reception
  line : Message → Reception

-- `readResponse`. An exception leaves the handler before the next line is asked for.
unfoldable pub read_response : Reception → Stratum → Stratum
read_response failed s = if s.running && s.connected then reconnect s else s
read_response garbled s = if s.connected then readline s else s
read_response (line m) s = next (process_response m s)
  where
    next : Bool × Stratum → Stratum
    next (true, t) = t
    next (false, t) = if t.connected then readline t else t

unfoldable pub is_connected : Stratum → Bool
is_connected s = s.connected && s.authorized

-- `submitWork`
unfoldable pub submit_work : List ℕ → List ℕ → List ℕ → ℕ → Bool → Stratum → Stratum
submit_work nonce hash challenge difficulty written s =
    if not (is_connected s)
    then s
    else write_stratum (submit nonce s.share_acct hash difficulty challenge) written s

unfoldable pub switch_acct : List ℕ → Stratum → Stratum
switch_acct acct s = record s { share_acct = acct }

-- `getWork`
unfoldable pub get_work : Stratum → List ℕ × ℕ × ℕ × List ℕ
get_work s = (s.challenge, s.target, s.difficulty, s.hashing_acct)
