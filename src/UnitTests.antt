-- ===== src/UnitTests.antt =====
-- The unit tests of the repository (src/stable.rs and src/lib.rs), run on the model: each test is the
-- definition of its name, and its run is what the test expects.
mod Asserts
mod Assets
mod Exchanges
mod Refunds
mod Rates
mod Context
mod Administration
mod Guardians
mod Minting
mod Commissions
mod SplitCommissions
mod SeveralAssets
