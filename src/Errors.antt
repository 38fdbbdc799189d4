-- ===== src/Errors.antt =====
-- libs/errors: error values, panics caught as errors, and the try/catch chains.
pub mod Value
pub mod Effect
pub mod TryCatch
pub mod Chain
pub mod StackError
pub mod Trace
mod Tests
