-- ===== src/Agent.antt =====
-- The agent beside qBittorrent (images/airvpn-bluetit/agent.py).
pub mod Budget
pub mod State
pub mod Window
pub mod World
pub mod Output
pub mod Bluetit
pub mod Switch
pub mod Publisher
pub mod Reader
pub mod Cache
pub mod Loop
pub mod Boot
mod Tests
