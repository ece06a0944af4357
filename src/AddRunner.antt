-- ===== src/AddRunner.antt =====
-- web/src/pages/AddRunner.tsx: the page that registers runners. The children are its name helpers,
-- its state with the handlers of its inputs, the values derived from the state (the modes of the
-- scopes, the name, the token inputs), what it submits, and what it shows.
pub mod Name
pub mod Form
pub mod Modes
pub mod Naming
pub mod Pats
pub mod Submit
pub mod View
mod Tests
