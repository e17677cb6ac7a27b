-- ===== src/Inet.antt =====
-- kernel/libc/arpa/inet.c on a little-endian machine, which x86 is: each conversion is a swap.
pub mod Laws
use dos.Prelude.{ℕ}
use dos.Bits.{switch_endian_16, switch_endian_32, switch_endian_64}

unfoldable pub htonll : ℕ → ℕ
htonll hostlonglong = switch_endian_64 hostlonglong

unfoldable pub htonl : ℕ → ℕ
htonl hostlong = switch_endian_32 hostlong

unfoldable pub htons : ℕ → ℕ
htons hostshort = switch_endian_16 hostshort

unfoldable pub ntohll : ℕ → ℕ
ntohll netlonglong = switch_endian_64 netlonglong

unfoldable pub ntohl : ℕ → ℕ
ntohl netlong = switch_endian_32 netlong

unfoldable pub ntohs : ℕ → ℕ
ntohs netshort = switch_endian_16 netshort
