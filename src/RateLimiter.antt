-- ===== src/RateLimiter.antt =====
-- internal/ratelimiter/ratelimiter.go: the token bucket's Lua script, `Allow` and `Wait`.
-- The script's numbers are held as integers: times in microseconds (`UnixMicro`) and tokens in
-- millionths, in which a refill of `elapsed * rate` is exact; the rounding of Lua's doubles is left
-- out. The key's time to live is counted on the server's clock, in microseconds too.
pub mod Bucket
pub mod Rate
pub mod Wait
