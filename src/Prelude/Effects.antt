-- ===== src/Prelude/Effects.antt =====
-- Code with effects: the actions (Actions), and what they keep (States, Chains) and return (Values).
mod Actions
mod States
mod Values
mod Chains
pub use Actions.*
pub use States.*
pub use Values.*
pub use Chains.*
