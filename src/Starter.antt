-- ===== src/Starter.antt =====
-- SystemStarter: the order in which startup items are run.
pub mod Items
pub mod Dependents
pub mod Growth
pub mod Closure
pub mod Walk
pub mod Enough
pub mod Reached
pub mod Next
pub mod Run
pub mod Chosen
pub mod Ready
pub mod Sums
pub mod Rounds
pub mod Ends
pub mod Kept
