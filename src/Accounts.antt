-- ===== src/Accounts.antt =====
-- The accounts app: the lockout after failed passwords, the sign-in page, registration and the
-- verification of addresses, the profiles, and the export and erasure of a user.
pub mod Lockout
pub mod Login
pub mod Profiles
pub mod Privacy
pub mod Verification
