-- ===== src/Delivery.antt =====
-- internal/delivery.
pub mod RateLimit
pub mod Ws
pub mod Http
