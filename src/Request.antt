-- ===== src/Request.antt =====
-- The description of a request: src/Basket.c.
pub mod Order
pub mod Cookies
