-- ===== src/Auth/Repository.antt =====
-- services/authentication/pentagon5_auth/repository.py: `PostgresAuthRepository`. A method is one
-- transaction on the tables; `uuid7()` and the database's `now()` are arguments. Inserts check the
-- unique, foreign-key and check constraints of infrastructure/database/metadata.py. Lengths of
-- columns are not checked.
pub mod Flows
pub mod Devices
pub mod Sessions
pub mod Tickets
pub mod LoginFlows
pub mod Grants
pub mod TicketUse
pub mod Revocation
