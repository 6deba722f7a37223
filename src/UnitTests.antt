-- ===== src/UnitTests.antt =====
-- The unit tests of src/, as tests of the model: each is a function into Bool of the same name, and
-- each file ends with the equation that all of its tests pass. A decimal is a whole number here, and
-- a fresh identifier is the number of its draw. Tests of derived serialisation have no counterpart.
mod Fixtures
mod Inline
mod Streaming
mod Policies
mod Domains
mod Services
