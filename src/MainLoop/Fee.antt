-- ===== src/MainLoop/Fee.antt =====
-- Mining for the developer for a part of the time (ethminer/MinerAux.h: calcDevFeeTimes, doGetWork;
-- ethminer/FarmClient.h: submitWorkPool).
use mvis_tokenminer.Prelude.{ℕ, zero, suc, ◌-◌, ◌*◌, ◌/◌, ◌≡◌, List, [], ◌∷◌}
use mvis_tokenminer.Prelude.{Bool, true, false, ◌&&◌, not, ltb, leb, ◌==◌, if◌then◌else◌, ◌⊎◌}

-- Whole numbers; `negsuc n` is -(n + 1).
pub data ℤ : Type 0 where
  pos : ℕ → ℤ
  negsuc : ℕ → ℤ

abbrev pub abs : ℤ → ℕ
abs (pos n) = n
abs (negsuc n) = suc n

-- `(-1) * n`
abbrev pub negate : ℕ → ℤ
negate zero = pos 0
negate (suc n) = negsuc n

-- The difference of two numbers.
abbrev pub difference : ℕ → ℕ → ℤ
difference m n = if leb n m then pos (m - n) else negate (n - m)

abbrev pub is_negative : ℤ → Bool
is_negative (pos n) = false
is_negative (negsuc n) = true

-- The variables of `doGetWork` for the fee, the time when `devFeeSwitch` was restarted, and
-- `workRPC.devFeeMining`.
pub record Fee : Type 0 where
  pub next_switch : ℤ
  pub user_fee_time : ℤ
  pub dev_fee_time : ℕ
  pub restarted : ℕ
  pub dev_fee_mining : Bool

-- `FEEBLOCKTIME`, in seconds.
abbrev pub fee_block_time : ℕ
fee_block_time = 4 * 60 * 60

-- The end of `calcDevFeeTimes`, with the developer's seconds as the settings' percentage gives them. A
-- percentage above 100 is not refused, and leaves the user less than nothing.
unfoldable pub calc_dev_fee_times : ℕ → ℕ → Fee
calc_dev_fee_times dev_fee_time now = record {
  next_switch = if dev_fee_time == 0 then pos 0 else pos (fee_block_time / 2);
  user_fee_time = difference fee_block_time dev_fee_time;
  dev_fee_time = dev_fee_time;
  restarted = now;
  dev_fee_mining = false;
}

-- The switch in the loop of `doGetWork`, at a time.
unfoldable pub switch_fee : ℕ → Fee → Fee
switch_fee now f =
    if not (abs f.next_switch == 0) && ltb (abs f.next_switch) (now - f.restarted)
    then if is_negative f.next_switch
      then record f { next_switch = f.user_fee_time; dev_fee_mining = false; restarted = now }
      else record f { next_switch = negate f.dev_fee_time; dev_fee_mining = true; restarted = now }
    else f

-- The account of a share.
unfoldable pub share_account : List ℕ → List ℕ → Fee → List ℕ
share_account donation user f = if f.dev_fee_mining then donation else user

abbrev pub switches : List ℕ → Fee → Fee
switches [] f = f
switches (now ∷ more) f = switches more (switch_fee now f)

-- The times are as they were set, and either the developer is mined for, with a switch after his part
-- of the time, or the user, with a switch after the rest of it or, at first, half a block.
abbrev pub IsFair : ℕ → Fee → Type 0
IsFair dev f =
    (f.dev_fee_time ≡ dev)
    × (f.user_fee_time ≡ pos (fee_block_time - dev))
    × (((f.dev_fee_mining ≡ true) × (f.next_switch ≡ negate dev))
        ⊎ ((f.dev_fee_mining ≡ false)
            × ((f.next_switch ≡ pos (fee_block_time - dev))
                ⊎ (f.next_switch ≡ pos (fee_block_time / 2)))))
