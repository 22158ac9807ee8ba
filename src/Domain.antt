-- ===== src/Domain.antt =====
-- internal/domain: the errors, the notification with its request and validation, the templates.
pub mod Errors
pub mod Notification
pub mod Validate
pub mod Template
