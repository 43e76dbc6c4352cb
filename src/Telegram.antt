-- ===== src/Telegram.antt =====
-- The Telegram channel of src/assistant/channels/telegram: the guard on inbound rates and the
-- outbound delivery.
pub mod Throttle
pub mod Egress
pub mod SplitText
