-- ===== src/Kernel/Handle.antt =====
-- The kernel's methods. `uuid` is the identifier that a new order gets and `now` the clock's time;
-- the kernel's ledger is also the one that a ledger-backed control state writes to.
mod Records
mod Cancel
mod Propose
unfoldable pub use Records.*
unfoldable pub use Cancel.*
unfoldable pub use Propose.*
