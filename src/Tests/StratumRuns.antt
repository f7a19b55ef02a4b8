-- ===== src/Tests/StratumRuns.antt =====
-- Runs of the client of a pool (libstratum/EthStratumClient.cpp).
use mvis_tokenminer.Prelude.{
  inr, ℕ, ◌-◌, ◌<◌, ◌≡◌, ◌≢◌, refl, arith, List, [], ◌∷◌, none, some, true, false,
}
use mvis_tokenminer.Stratum.{
  Stratum, new_client, accepted, unresolved, refused, line, Message, notify,
}
use mvis_tokenminer.Stratum.{
  launch, connect_stratum, attempted, subscribed, readline, write_stratum,
}
use mvis_tokenminer.Stratum.{
  host_and_port, after_scheme, split_at_colon, read_response, switch_acct,
}
use mvis_tokenminer.Stratum.Alive.{here, next, read, switch, IsAlive, IsReadable, Reach-IsAlive}
use mvis_tokenminer.Stratum.Retries.{retried, retried-refused, retried-unresolved}

-- h:80
abbrev pub url : List ℕ
url = b'h' ∷ b':' ∷ b'8' ∷ b'0' ∷ []

abbrev pub client : Stratum
client = new_client url 4 (b'm' ∷ [])

client_address : host_and_port client.url ≢ none
unfolding new_client host_and_port after_scheme split_at_colon
client_address e = cc e

abbrev pub work : Message
work = record {
  has_result = false;
  has_error = false;
  id = some 0;
  result = some false;
  reason = some [];
  method = some notify;
  challenge = some (b'0' ∷ b'7' ∷ []);
  target = some 900;
  difficulty = some 5;
  hashing_acct = some [];
}

abbrev pub launched : Stratum
launched = launch accepted true client

launched_running : launched.running ≡ true
unfolding launch connect_stratum attempted subscribed readline write_stratum host_and_port
    after_scheme split_at_colon new_client
launched_running = refl

launched_reads : 0 < launched.reads
unfolding launch connect_stratum attempted subscribed readline write_stratum host_and_port
    after_scheme split_at_colon new_client
launched_reads = omega arith

readable : IsReadable work
readable = inr (
  0,
  refl,
  inr (
    (λ e. cc e),
    (λ e. cc e),
    (notify, refl, inr ((b'0' ∷ b'7' ∷ [], refl), (900, refl), (5, refl), ([], refl))),
  ),
)

Reach-IsAlive_example : IsAlive (
    switch_acct
      (b'd' ∷ [])
      (read_response (line work) (record launched { reads = launched.reads - 1 })))
Reach-IsAlive_example = Reach-IsAlive accepted true client client_address (
    next (next here (read (line work) launched_running launched_reads readable))
      (switch (b'd' ∷ [])))

retried-refused_example :
    ((retried refused true 3 (record client { running = true })).running ≡ true)
    × ((retried refused true 4 (record client { running = true })).running ≡ false)
unfolding new_client
retried-refused_example =
    retried-refused (record client { running = true }) client_address true 3 refl refl (omega arith)

retried-unresolved_example :
    (retried unresolved false 3 (record client { running = true })).running ≡ true
unfolding new_client
retried-unresolved_example =
    retried-unresolved (record client { running = true }) client_address 3 refl (omega arith)
