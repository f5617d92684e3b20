-- ===== src/Owner.antt =====
-- internal/transport/telegram/accountowner: the owner of the accounts' running clients.
pub mod Fences
