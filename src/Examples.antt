-- ===== src/Examples.antt =====
-- Concrete inputs: every theorem that has hypotheses applied where they hold, and tests.
mod Amounts
mod Prices
mod Zones
mod Orders
mod Movement
mod Calls
mod Routing
mod Bookings
