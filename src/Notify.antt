-- ===== src/Notify.antt =====
-- ec-service-lib/src/services/notify.rs: the notification service. `Types` has its data, `Table`
-- its entries and mappings, `Service` the handlers.
pub mod Types
pub mod Table
pub mod Service
pub mod Rounds
pub mod Valid
pub mod Count
pub mod Exact
pub mod Commit
pub mod Keeps
pub mod Total
pub mod Panics
pub mod Atomic
pub mod Tests
