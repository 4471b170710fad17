-- ===== src/Builtin/Concurrent/Exclusive.antt =====
-- Two ports of the driver never listen on one address, however the calls interleave.
use rootlesskit.Net.{Net}
