-- ===== src/Redis/Notification/Retries.antt =====
-- How often a notification is handled, and after which delays (libs/redis/redis_notification.go).
