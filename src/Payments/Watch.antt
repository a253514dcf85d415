-- ===== src/Payments/Watch.antt =====
-- The loop over the blocks, the saved state, and the lock.
use chutes_api.Base.{
  ℕ, zero, suc, ◌+◌, ◌-◌, ◌≤◌, ◌≡◌, ◌↔◌, ◌⊎◌, Bool, true, false, List, Option, none, some, String,
  leb, ltb, if◌then◌else◌, arith,
}
use chutes_api.Payments.{Ledger, Transfer, Services, Known, process_transfers}

-- The row of payment_monitor_state; times are in seconds.
pub record State : Type 0 where
  pub block_number : ℕ
  pub is_locked : Bool
  pub lock_holder : Option String
  pub last_updated_at : ℕ

-- What the watcher reads of the chain: the transfers of a block.
abbrev pub Chain : Type 0
Chain = ℕ → List Transfer

-- _get_state: the block to begin with.
pub get_state : (max_recovery_blocks latest : ℕ) → State → ℕ
get_state max_recovery_blocks latest state =
    if ltb max_recovery_blocks (latest - state.block_number)
    then latest - max_recovery_blocks
    else state.block_number

-- _save_state
save_state : (now block : ℕ) → State → State
save_state now block state = record state { block_number = block; last_updated_at = now }

-- The inner loop of monitor_transfers over `n` blocks; `fmv` is the price while a block is processed,
-- and `now` the time of its end.
pub monitor :
    Services → Known → Chain → (fmv now : ℕ → ℕ) → (n block : ℕ) → Ledger × State → Ledger × State
monitor services known chain fmv now zero block (l, state) = (l, state)
monitor services known chain fmv now (suc n) block (l, state) =
    monitor services known chain fmv now n (suc block) (
      process_transfers services known (fmv block) block (chain block) l,
      save_state (now block) block state,
    )

abbrev lock_timeout : ℕ
lock_timeout = 300

-- _lock: whether the lock was acquired, and the row.
pub lock : (now : ℕ) (holder : String) → State → Bool × State
lock now holder state =
    if (if state.is_locked then leb (state.last_updated_at + lock_timeout) now else true)
    then (true, record state { is_locked = true; lock_holder = some holder; last_updated_at = now })
    else (false, state)

-- _unlock, which does not look at the holder.
unlock : State → State
unlock state = record state { is_locked = false; lock_holder = none }

-- A watcher acquires the lock exactly if it finds the row unlocked, or not updated for five minutes.
lock-acquires :
    (now : ℕ) (holder : String) (state : State)
    → ((lock now holder state).0 ≡ true)
      ↔ ((state.is_locked ≡ false) ⊎ (state.last_updated_at + lock_timeout ≤ now))
unfolding lock
lock-acquires now holder state = (λ e. ground arith, λ h. ground arith)

-- A watcher that is refused the lock and is then stopped releases the lock of the one that holds it: any
-- third one acquires it at once.
lock-unlock :
    (now later : ℕ) (refused third : String) (state : State)
    → (lock now refused state).0 ≡ false
    → (state.is_locked ≡ true) × ((lock later third (unlock (lock now refused state).1)).0 ≡ true)
unfolding lock unlock
lock-unlock now later refused third state denied = (ground arith, ground arith)
