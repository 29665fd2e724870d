-- ===== src/Stable/Raised.antt =====
-- A refund of src/stable.rs after the owner has changed the rate of the asset.
use usn.Base.{ℕ, none, some}
use usn.Event.{Event}
use usn.Asset.{CommissionRate}

abbrev pub raised_to : ℕ → CommissionRate
raised_to rate = record { deposit = none; withdraw = some rate }
