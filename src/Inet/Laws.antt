-- ===== src/Inet/Laws.antt =====
-- Network byte order: the conversions put the highest byte first, and undo one another.
use dos.Prelude.{arith, ℕ, ◌<◌, ◌^◌, ◌≡◌}
use mathlib.Core.List.{reverse}
use dos.Bits.Endian.{
  bytes, bytes-switch_endian_16, bytes-switch_endian_32, bytes-switch_endian_64,
  switch_endian_16_twice, switch_endian_32_twice, switch_endian_64_twice, switch_endian_16_zero,
}
use dos.Inet.{htonll, htonl, htons, ntohll, ntohl, ntohs}

-- At each width, the bytes of the converted word lie in memory highest first, as the network
-- wants them: they are the bytes of the word reversed.
pub bytes-hton :
    (s l ll : ℕ)
    → s < 2 ^ 16
    → l < 2 ^ 32
    → ll < 2 ^ 64
    → (bytes 2 (htons s) ≡ reverse (bytes 2 s))
      × (bytes 4 (htonl l) ≡ reverse (bytes 4 l))
      × (bytes 8 (htonll ll) ≡ reverse (bytes 8 ll))
unfolding htons htonl htonll
bytes-hton s l ll hs hl hll =
    (bytes-switch_endian_16 s hs, bytes-switch_endian_32 l hl, bytes-switch_endian_64 ll hll)

-- At each width, converting to network order and back gives the word again.
pub ntoh-hton :
    (s l ll : ℕ)
    → s < 2 ^ 16
    → l < 2 ^ 32
    → ll < 2 ^ 64
    → (ntohs (htons s) ≡ s) × (ntohl (htonl l) ≡ l) × (ntohll (htonll ll) ≡ ll)
unfolding htons htonl htonll ntohs ntohl ntohll
ntoh-hton s l ll hs hl hll =
    (switch_endian_16_twice s hs, switch_endian_32_twice l hl, switch_endian_64_twice ll hll)

pub htons-zero : htons 0 ≡ 0
unfolding htons
htons-zero = switch_endian_16_zero

pub ntohs-htons : (n : ℕ) → n < 2 ^ 16 → ntohs (htons n) ≡ n
ntohs-htons n small = (ntoh-hton n 0 0 small (omega arith) (omega arith)).0
