-- ===== src/Auth/Requests/Replays.antt =====
-- Replayed requests before `AuthMiddleware` of route/auth/middleware.go. The middleware reads the clock before
-- it reads the body, and takes the lock of the nonce store after that.
use kokorobox_service.Auth.Crypto.{Crypto}
