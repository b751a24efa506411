-- ===== src/Challenge.antt =====
-- Challenges to the user (packages/snjs/lib/Services/Challenge): operations that gather values, and the
-- service that runs them. A value is a text or a number; its validation by the encryption service is a
-- parameter. Operations and observers are kept by the identifier of their challenge. `remove_from_array`
-- belongs to @standardnotes/utils.
pub mod Operation
pub mod Service
pub mod Counts
pub mod Finished
pub mod Ended
mod Examples
