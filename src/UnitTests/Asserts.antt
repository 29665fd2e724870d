-- ===== src/UnitTests/Asserts.antt =====
-- What the unit tests of src/stable.rs and src/lib.rs use of the standard library: indexing, lengths
-- and comparisons of options.
use usn.Base.{
  ℕ, zero, suc, ◌+◌, Bool, true, false, Option, none, some, List, [], ◌∷◌, ◌==◌, AccountId, Result,
  or_panic, unwrap_none,
}
use usn.Asset.{AssetInfo}
use usn.Stable.{StableTreasury, supported_assets}

abbrev pub is_some {ℓ} : {A : Type ℓ} → Option A → Bool
is_some none = false
is_some (some a) = true

abbrev pub is_none {ℓ} : {A : Type ℓ} → Option A → Bool
is_none none = true
is_none (some a) = false

abbrev pub same_option : Option ℕ → Option ℕ → Bool
same_option none none = true
same_option (some a) (some b) = a == b
same_option _ _ = false

abbrev pub count {ℓ} : {A : Type ℓ} → List A → ℕ
count [] = 0
count (a ∷ l) = count l + 1

abbrev pub element {ℓ} : {A : Type ℓ} → ℕ → List A → Option A
element i [] = none
element zero (a ∷ l) = some a
element (suc i) (a ∷ l) = element i l

-- `supported_assets()[i]`
abbrev pub asset_at : ℕ → StableTreasury → Result (AccountId × AssetInfo)
asset_at i treasury = or_panic (element i (supported_assets treasury)) unwrap_none
