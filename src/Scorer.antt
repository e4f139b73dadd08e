-- ===== src/Scorer.antt =====
-- The scorer (images/vpn-picker/vpn_picker.py).
pub mod Rows
pub mod Ejection
pub mod Journal
pub mod Probe
pub mod Cycle
pub mod Intake
mod Tests
