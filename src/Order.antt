-- ===== src/Order.antt =====
-- Orders: the paired order and number state machine (src/domain/order-state-machine.ts) and the
-- listening window after a success (src/domain/order-listening-window.ts).
pub mod Status
pub mod Release
pub mod Transition
pub mod Listening
