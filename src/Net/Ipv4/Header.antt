-- ===== src/Net/Ipv4/Header.antt =====
-- The header of kernel/modules/net/ip.c and its checksum.
use dos.Prelude.{
  List, [], ap, arith, refl, ℕ, ◌%◌, ◌*◌, ◌++◌, ◌+◌, ◌/◌, ◌<◌, ◌^◌, ◌∙◌, ◌∷◌, ◌≡◌, ◌≤◌,
}
use dos.Net.{Ipv4Packet}
use dos.Net.Checksum.{add_words, finish_checksum}
use dos.Net.Checksum.Fold.{AllBytes, add_words-le, add_words-plus, finish_checksum-complement}
use dos.Net.Ipv4.{header_bytes, ip_bytes, word_bytes, ipv4_calculate_checksum}

-- The bytes before the checksum, and those behind it.
abbrev front : Ipv4Packet → List ℕ
front packet =
    (packet.ihl + packet.version * 2 ^ 4)
      ∷ (packet.ecn + packet.dscp * 2 ^ 2)
      ∷ word_bytes packet.total_length
    ++ word_bytes packet.identification
    ++ word_bytes (packet.fragment_offset + packet.flags * 2 ^ 13)
    ++ (packet.ttl ∷ packet.protocol ∷ [])

abbrev back : Ipv4Packet → List ℕ
back packet = ip_bytes packet.source_ip ++ ip_bytes packet.destination_ip

header_sum :
    (packet : Ipv4Packet)
    → add_words (header_bytes packet) 0
      ≡ add_words (back packet) ((add_words (front packet) 0 + packet.header_checksum) % 2 ^ 32)
unfolding add_words header_bytes
header_sum packet =
    let whole : packet.header_checksum % 2 ^ 8 + packet.header_checksum / 2 ^ 8 * 2 ^ 8
        ≡ packet.header_checksum =
      omega arith in
    rw whole refl

-- The fields fit where they stand.
pub record IsHeader (packet : Ipv4Packet) : Type 0 where
  pub front_bytes : AllBytes (front packet)
  pub back_bytes : AllBytes (back packet)

calculate_lem :
    (packet : Ipv4Packet)
    → ipv4_calculate_checksum packet ≡ finish_checksum (add_words (header_bytes packet) 0)
unfolding ipv4_calculate_checksum
calculate_lem packet = refl

with_checksum : Ipv4Packet → ℕ → Ipv4Packet
with_checksum packet k = record packet { header_checksum = k }

-- The sum of a header but for its checksum.
rest_sum : Ipv4Packet → ℕ
rest_sum packet = add_words (back packet) (add_words (front packet) 0)

rest_sum-le : (packet : Ipv4Packet) → IsHeader packet → rest_sum packet ≤ 65535 * 18
unfolding rest_sum
rest_sum-le packet fits =
    let begin = add_words-le 0 fits.front_bytes in
    let whole = add_words-le (add_words (front packet) 0) fits.back_bytes in
    omega (arith, begin, whole)

sum_with :
    (packet : Ipv4Packet) (k : ℕ)
    → IsHeader packet
    → k < 2 ^ 16
    → add_words (header_bytes (with_checksum packet k)) 0 ≡ rest_sum packet + k
unfolding rest_sum with_checksum
sum_with packet k fits small =
    let low = rest_sum-le packet fits in
    header_sum (record packet { header_checksum = k })
    ∙ add_words-plus (back packet) (add_words (front packet) 0) k
    ∙ omega (arith, low, small)

finish_checksum-lt : (c : ℕ) → finish_checksum c < 2 ^ 16
unfolding finish_checksum
finish_checksum-lt c = omega arith

checksum_with :
    (packet : Ipv4Packet) (k : ℕ)
    → IsHeader packet
    → k < 2 ^ 16
    → ipv4_calculate_checksum (with_checksum packet k) ≡ finish_checksum (rest_sum packet + k)
checksum_with packet k fits small =
    calculate_lem (with_checksum packet k) ∙ ap finish_checksum (sum_with packet k fits small)

verifies :
    (packet : Ipv4Packet)
    → IsHeader packet
    → ipv4_calculate_checksum
        (with_checksum packet (ipv4_calculate_checksum (with_checksum packet 0)))
      ≡ 0
verifies packet fits =
    let low = rest_sum-le packet fits in
    let none_added : rest_sum packet + 0 ≡ rest_sum packet = omega arith in
    ap (λ k. ipv4_calculate_checksum (with_checksum packet k))
      (checksum_with packet 0 fits (omega arith) ∙ ap finish_checksum none_added)
    ∙ checksum_with packet (finish_checksum (rest_sum packet)) fits
        (finish_checksum-lt (rest_sum packet))
    ∙ finish_checksum-complement (rest_sum packet) (omega (arith, low))

-- The receiver's check of RFC 791: in a header whose fields fit, and whose checksum field has the
-- checksum that the code computes with the field at 0, the checksum over all words is 0.
pub ipv4_calculate_checksum-verifies :
    (packet : Ipv4Packet)
    → IsHeader packet
    → ipv4_calculate_checksum (record packet {
      header_checksum = ipv4_calculate_checksum (record packet { header_checksum = 0 });
    })
      ≡ 0
unfolding with_checksum
ipv4_calculate_checksum-verifies packet fits = verifies packet fits
