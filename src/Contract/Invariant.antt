-- ===== src/Contract/Invariant.antt =====
-- The invariant of the contract of src/lib.rs.
use usn.Base.{◌≢◌, none, Result, Ensures}
use usn.Ft.{FungibleTokenFreeStorage}
use usn.Ft.Ledger
use usn.Stable.{StableTreasury}
use usn.Stable.Invariant
use usn.Contract.{Contract, Outcome}

-- The token and the treasury are valid, and the metadata is there.
pub record IsValid (c : Contract) : Type 0 where
  pub token : Ledger.IsValid c.token
  pub treasury : Invariant.IsValid c.stable_treasury
  pub described : c.metadata ≢ none

-- What a method leaves behind is valid.
abbrev pub Keeps : {A : Type 0} → Result (Outcome A) → Type 0
Keeps r = Ensures (λ o. IsValid o.0) r

-- Replacing the token, the treasury or both by valid ones.
module _ {c : Contract} (v : IsValid c) where
  pub with_token :
      {t : FungibleTokenFreeStorage} → Ledger.IsValid t → IsValid (record c { token = t })
  with_token h = record { token = h; treasury = v.treasury; described = v.described }

  pub with_treasury :
      {s : StableTreasury} → Invariant.IsValid s → IsValid (record c { stable_treasury = s })
  with_treasury h = record { token = v.token; treasury = h; described = v.described }
