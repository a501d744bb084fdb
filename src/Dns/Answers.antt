-- ===== src/Dns/Answers.antt =====
-- A query of dns.cpp, the answer to it, and the caches.
use myip.Dns.{Dns}
