-- ===== src/UnitTests/Assets.antt =====
-- The unit tests of src/stable.rs on the supported assets.
use usn.Stable
use usn.Asset.{usdt_id, max_valid_decimals, enabled, disabled, same_status, new_asset}
use usn.Base.{
  ◌+◌, ◌≡◌, refl, Result, ok, err, require, same_account, ◌==◌, ◌>>=◌, ◌>>◌, assertion_failed,
  already_supported, decimals_out_of_bounds, wrong_status,
}
use usn.Base.Maps.{get}
use usn.Near.{sandbox}
use usn.Stable.{add_asset, enable_asset, disable_asset, supported_assets}
use usn.UnitTests.Asserts.{asset_at, is_some, count}

unfoldable test_stable_assets : Result (Unit {0})
unfolding Stable.new
test_stable_assets = do
  treasury ← Stable.new sandbox
  (asset_id, _) ← asset_at 0 treasury
  require (same_account asset_id (usdt_id sandbox)) assertion_failed
  (_, asset) ← asset_at 0 treasury
  require (asset.decimals == 6) assertion_failed
  ok tt

test_stable_assets_run : test_stable_assets ≡ ok tt
unfolding test_stable_assets
test_stable_assets_run = refl

unfoldable test_supported_assets : Result (Unit {0})
unfolding Stable.new add_asset new_asset
test_supported_assets = do
  treasury ← Stable.new sandbox
  treasury ← add_asset "bob" 20 treasury
  require (is_some (get "bob" treasury.assets)) assertion_failed
  ok tt

test_supported_assets_run : test_supported_assets ≡ ok tt
unfolding test_supported_assets
test_supported_assets_run = refl

unfoldable test_add_asset_twice : Result (Unit {0})
unfolding Stable.new add_asset new_asset
test_add_asset_twice = do
  treasury ← Stable.new sandbox
  treasury ← add_asset "bob" 20 treasury
  require (is_some (get "bob" treasury.assets)) assertion_failed
  treasury ← add_asset "bob" 20 treasury
  ok tt

test_add_asset_twice_run : test_add_asset_twice ≡ err (already_supported "bob")
unfolding test_add_asset_twice
test_add_asset_twice_run = refl

unfoldable test_add_asset_with_zero_decimals : Result (Unit {0})
unfolding Stable.new add_asset new_asset
test_add_asset_with_zero_decimals = do
  treasury ← Stable.new sandbox
  treasury ← add_asset "bob" 0 treasury
  ok tt

test_add_asset_with_zero_decimals_run :
    test_add_asset_with_zero_decimals ≡ err decimals_out_of_bounds
unfolding test_add_asset_with_zero_decimals
test_add_asset_with_zero_decimals_run = refl

unfoldable test_add_asset_with_exceeded_decimals : Result (Unit {0})
unfolding Stable.new add_asset new_asset
test_add_asset_with_exceeded_decimals = do
  treasury ← Stable.new sandbox
  treasury ← add_asset "bob" (max_valid_decimals + 1) treasury
  ok tt

test_add_asset_with_exceeded_decimals_run :
    test_add_asset_with_exceeded_decimals ≡ err decimals_out_of_bounds
unfolding test_add_asset_with_exceeded_decimals
test_add_asset_with_exceeded_decimals_run = refl

unfoldable test_enable_disable_assets : Result (Unit {0})
unfolding Stable.new add_asset disable_asset enable_asset new_asset
test_enable_disable_assets = do
  treasury ← Stable.new sandbox
  treasury ← add_asset "bob" 20 treasury
  (_, asset) ← asset_at 1 treasury
  require (same_status asset.status enabled) assertion_failed
  treasury ← disable_asset "bob" treasury
  (_, asset) ← asset_at 1 treasury
  require (same_status asset.status disabled) assertion_failed
  treasury ← enable_asset "bob" treasury
  (_, asset) ← asset_at 1 treasury
  require (same_status asset.status enabled) assertion_failed
  ok tt

test_enable_disable_assets_run : test_enable_disable_assets ≡ ok tt
unfolding test_enable_disable_assets
test_enable_disable_assets_run = refl

unfoldable test_disable_asset_twice : Result (Unit {0})
unfolding Stable.new add_asset disable_asset new_asset
test_disable_asset_twice = do
  treasury ← Stable.new sandbox
  treasury ← add_asset "bob" 20 treasury
  (_, asset) ← asset_at 1 treasury
  require (same_status asset.status enabled) assertion_failed
  treasury ← disable_asset "bob" treasury
  (_, asset) ← asset_at 1 treasury
  require (same_status asset.status disabled) assertion_failed
  treasury ← disable_asset "bob" treasury
  ok tt

test_disable_asset_twice_run : test_disable_asset_twice ≡ err (wrong_status "bob")
unfolding test_disable_asset_twice
test_disable_asset_twice_run = refl

unfoldable test_enable_asset_twice : Result (Unit {0})
unfolding Stable.new add_asset enable_asset new_asset
test_enable_asset_twice = do
  treasury ← Stable.new sandbox
  treasury ← add_asset "bob" 20 treasury
  (_, asset) ← asset_at 1 treasury
  require (same_status asset.status enabled) assertion_failed
  treasury ← enable_asset "bob" treasury
  ok tt

test_enable_asset_twice_run : test_enable_asset_twice ≡ err (wrong_status "bob")
unfolding test_enable_asset_twice
test_enable_asset_twice_run = refl

unfoldable test_view_supported_assets : Result (Unit {0})
unfolding Stable.new add_asset new_asset
test_view_supported_assets = do
  treasury ← Stable.new sandbox
  treasury ← add_asset "bob" 20 treasury
  require (count (supported_assets treasury) == 2) assertion_failed
  (asset_id, _) ← asset_at 1 treasury
  require (same_account asset_id "bob") assertion_failed
  ok tt

test_view_supported_assets_run : test_view_supported_assets ≡ ok tt
unfolding test_view_supported_assets
test_view_supported_assets_run = refl
