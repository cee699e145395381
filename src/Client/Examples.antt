-- ===== src/Client/Examples.antt =====
-- The theorems of the client's own choices at concrete inputs.
pub mod Inputs
pub mod Arguments
