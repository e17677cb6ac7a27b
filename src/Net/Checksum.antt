-- ===== src/Net/Checksum.antt =====
-- The checksum of kernel/modules/net/ip.c, udp.c and tcp.c.
pub mod Fold
use dos.Prelude.{List, [], if◌then◌else◌, suc, zero, ℕ, ◌%◌, ◌*◌, ◌+◌, ◌-◌, ◌/◌, ◌==◌, ◌^◌, ◌∷◌}

-- The loops that add the words of two bytes each, low byte first, and a last byte alone.
unfoldable pub add_words : List ℕ → ℕ → ℕ
add_words [] checksum = checksum
add_words (a ∷ []) checksum = (checksum + a) % 2 ^ 32
add_words (a ∷ b ∷ bytes) checksum = add_words bytes ((checksum + (a + b * 2 ^ 8)) % 2 ^ 32)

-- `while (checksum >> 16)`
unfoldable pub fold_carries : ℕ → ℕ → ℕ
fold_carries zero checksum = checksum
fold_carries (suc fuel) checksum =
    let rest = fold_carries fuel (checksum % 2 ^ 16 + checksum / 2 ^ 16) in
    if checksum / 2 ^ 16 == 0 then checksum else rest

-- `~checksum` as a `uint16_t`. Two rounds fold every sum of 32 bits.
unfoldable pub finish_checksum : ℕ → ℕ
unfolding fold_carries
finish_checksum checksum = 2 ^ 16 - 1 - fold_carries 2 checksum % 2 ^ 16
