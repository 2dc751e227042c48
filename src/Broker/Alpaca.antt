-- ===== src/Broker/Alpaca.antt =====
-- src/project_fifty/brokers/alpaca/broker.py: the adapter to the paper-trading service. `Replies` reads
-- what the service answers, `Orders` places and cancels orders, `Account` and `Service` read the account.
pub mod Replies
pub mod Orders
pub mod Account
pub mod Service
