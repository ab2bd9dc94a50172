-- ===== src/Config.antt =====
-- agent/internal/config: what the agent is started with. Texts are lists of code points here, of
-- strings that are UTF-8. `net.ParseIP` and `url.Parse` are parameters.
pub mod Address
pub mod Advertised
pub mod Load
mod Tests
