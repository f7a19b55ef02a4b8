-- ===== src/Tests/PoolRuns.antt =====
-- A run of the loop that mines through a stratum client (ethminer/MinerAux.h: doStratum).
use mvis_tokenminer.Prelude.{ℕ, ◌≡◌, ◌≢◌, inl, refl, List, [], ◌∷◌, true, list_eq, Result, ok, err}
use mvis_tokenminer.MainLoop.{LoopError, calc_final_target, by_pool}
use mvis_tokenminer.MainLoop.Fee.{calc_dev_fee_times, switch_fee, share_account}
use mvis_tokenminer.Stratum.{
  line, get_work, valid_input, take_work, notification, process_response, read_response,
  is_connected, submit_work, switch_acct, launch, connect_stratum, attempted, subscribed, readline,
  write_stratum, host_and_port, after_scheme, split_at_colon, new_client,
}
use mvis_tokenminer.Hex.{from_hex, from_hex_loop, prefix_length, join_digits, from_hex_digit}
use mvis_tokenminer.Farm.{
  is_solo, set_work, miner_submit_proof, submit_proof, take_solution, solution_found,
}
use mvis_tokenminer.PoolLoop.{
  PoolLoop, pool_round, new_challenge, new_target, fee_due, new_fee, adopt_work, count_share,
  submit_share, pool_judge, pool_take,
}
use mvis_tokenminer.PoolLoop.Following.{Mines}
use mvis_tokenminer.PoolLoop.Runs.{Event, round, look, receive, mine, pool_run, pool_run-Mines}
use mvis_tokenminer.Tests.FarmRuns.{pool_farm}
use mvis_tokenminer.Tests.StratumRuns.{launched, work}

-- The start of the loop, with a farm that mined for another pool.
abbrev pool_loop : PoolLoop
pool_loop = record {
  challenge = [];
  target = 0;
  difficulty = 0;
  account = [];
  farm = pool_farm;
  client = launched;
  fee = calc_dev_fee_times 144 0;
}

-- The hash of a solution stands for it.
abbrev keccak : List ℕ → List ℕ → ℕ → ℕ
keccak challenge account solution = solution

abbrev bytes : ℕ → List ℕ
bytes n = n ∷ []

abbrev events : List Event
events = receive (line work) ∷ round by_pool 5 ∷ mine 800 0 ∷ look true ∷ round by_pool 8000 ∷ []

abbrev or_first : Result LoopError PoolLoop → PoolLoop
or_first (ok s) = s
or_first (err e) = pool_loop

abbrev later : PoolLoop
later = or_first (pool_run (1 ∷ []) (2 ∷ []) keccak bytes events pool_loop)

abbrev last : PoolLoop
last = or_first (pool_round (1 ∷ []) (2 ∷ []) by_pool 8001 later)

run_ends : pool_run (1 ∷ []) (2 ∷ []) keccak bytes events pool_loop ≡ ok later
unfolding pool_round calc_final_target get_work
run_ends = refl

round_ends : pool_round (1 ∷ []) (2 ∷ []) by_pool 8001 later ≡ ok last
unfolding pool_round calc_final_target get_work
round_ends = refl

client_challenge : later.client.challenge ≡ 7 ∷ []
unfolding pool_round calc_final_target get_work new_challenge new_target fee_due new_fee adopt_work
    count_share submit_share pool_judge pool_take valid_input take_work notification
    process_response read_response is_connected submit_work switch_acct set_work miner_submit_proof
    submit_proof take_solution solution_found switch_fee share_account calc_dev_fee_times launch
    connect_stratum attempted subscribed readline write_stratum host_and_port after_scheme
    split_at_colon new_client list_eq from_hex from_hex_loop prefix_length join_digits
    from_hex_digit is_solo
client_challenge = refl

some_challenge : later.client.challenge ≢ []
some_challenge e = cc (client_challenge, e)

pool_run-Mines_example :
    (final : ℕ × ℕ) × (calc_final_target by_pool (later.client.target, later.client.difficulty)
      ≡ ok final)
    × Mines later.client.challenge final.0 last
pool_run-Mines_example =
    pool_run-Mines (1 ∷ []) (2 ∷ []) keccak bytes events by_pool 8001 pool_loop later last
      (refl, ((refl, refl), ((refl, refl), tt)), inl refl) run_ends some_challenge round_ends
