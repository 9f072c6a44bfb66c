-- ===== src/Gacha.antt =====
-- internal/gacha: the rolls, the pool of skins, the grant of a skin and the handlers.
pub mod Rng
pub mod Pool
pub mod Grant
pub mod Pull
pub mod Handlers
pub mod Logs
