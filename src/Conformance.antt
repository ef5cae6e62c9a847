-- ===== src/Conformance.antt =====
-- The unit tests of the repository, run on the definitions: each test is a type of its own, which
-- says what its assertions say of the inputs in it, and each file of tests has one proof that they
-- hold. A TOML literal is the value that it parses to.
mod Decimal
mod Literals
mod Validation
mod Values
mod Files
mod Nodes
mod Reads
mod Writes
mod Groups
mod Plans
mod Loads
mod Runs
mod Events
