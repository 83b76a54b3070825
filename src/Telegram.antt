-- ===== src/Telegram.antt =====
-- internal/telegram: who may talk to the bot, the webhook, and what is sent.
pub mod Allow
pub mod Sender
pub mod Webhook
pub mod Handler
