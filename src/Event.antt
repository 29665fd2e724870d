-- ===== src/Event.antt =====
-- The events and log lines of a call: src/event.rs, and the `log!` and `log_str` lines.
pub mod Totals
use usn.Base.{ℕ, Option, String, AccountId}

-- `AssetAction` of src/stable.rs.
pub data AssetAction : Type 0 where
  deposit_action withdraw_action : AssetAction

-- `FtMint`, `FtBurn` and `FtTransfer` of NEP-141, and the log lines by what they print.
pub data Event : Type 0 where
  ft_mint ft_burn : AccountId → ℕ → Option String → Event
  ft_transfer : AccountId → AccountId → ℕ → Option String → Event
  refund_log : ℕ → AccountId → AccountId → Event
  withdraw_refund_log : ℕ → AccountId → AccountId → Event
  new_rate_log : AssetAction → ℕ → Event
