-- ===== src/Access.antt =====
-- Who may call: the claims of civicbrain/domain/identity/jwt.py, and the rate limiter of
-- civicbrain/infra/rate_limit.py.
pub mod Claims
pub mod RateLimit
