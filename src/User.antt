-- ===== src/User.antt =====
-- Signing in, registering, signing out, passcodes and credentials (packages/snjs/lib/Services/User/
-- UserService.ts).
pub mod Calls
pub mod Account
pub mod Passcode
pub mod Credentials
pub mod Settled
pub mod SignedIn
pub mod Keeping
pub mod Upgraded
pub mod Dialogs
pub mod Holds
pub mod Change
mod Examples
