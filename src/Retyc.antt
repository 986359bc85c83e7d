-- ===== src/Retyc.antt =====
-- internal/retycclient/client.go: the retyc command line as the driver's only way to the Retyc API.
-- `Kind` names the CLI's error kinds, `Codes` has the tests on texts as code points, `Errors` the classification of the CLI's errors,
-- `Stderr` the reading of its error output, `Size` the rendering of sizes, `Commands` the calls.
pub mod Codes
pub mod Kind
pub mod Errors
pub mod Stderr
pub mod Size
pub mod Commands
mod Tests
