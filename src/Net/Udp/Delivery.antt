-- ===== src/Net/Udp/Delivery.antt =====
-- What kernel/modules/net/udp.c sends is what the listener of another machine gets.
use dos.Prelude.{
  List, [], ap, ap₂, arith, false, length, refl, some, take, true, ℕ, ◌%◌, ◌*◌, ◌++◌, ◌+◌, ◌-◌, ◌/◌,
  ◌<◌, ◌==◌, ◌^◌, ◌∙◌, ◌∷◌, ◌≡◌,
}
use dos.Inet.{ntohs}
use dos.Inet.Laws.{ntohs-htons, htons-zero}
use dos.Net.{Ip, Ipv4Packet, Net, Frame, ipv4, frame_of, ethertype_ipv4}
use dos.Net.Arp.{Arrivals}
use dos.Net.Ipv4.{
  Protocols, next_hop, ipv4_header, ipv4_send_packet, ipv4_calculate_checksum, ipv4_receive_packet,
  ethernet_process_packet,
}
use dos.Net.Ipv4.Hop.{sent_frame, ipv4_send_packet-hop}
use dos.Net.Udp.{
  UdpPacket, Listeners, udp_bytes, udp_packet, udp_header, udp_calculate_checksum, udp_send_packet,
  udp_receive_packet, receive_udp,
}

take-length : (xs : List ℕ) → take (length xs) xs ≡ xs
take-length [] = refl
take-length (x ∷ xs) = ap (λ l. x ∷ l) (take-length xs)

word_again : (word : ℕ) → word % 2 ^ 8 + word / 2 ^ 8 * 2 ^ 8 ≡ word
word_again word = omega arith

-- The bytes of a header are read back as the header.
udp_packet-udp_bytes :
    (packet : UdpPacket) (bytes : List ℕ) → udp_packet (udp_bytes packet ++ bytes) ≡ packet
udp_packet-udp_bytes packet bytes =
    rw
      (
        word_again packet.source_port,
        word_again packet.destination_port,
        word_again packet.length,
        word_again packet.checksum,
      )
      refl

header_checks :
    (source_ip destination_ip : Ip) (size : ℕ)
    → ipv4_calculate_checksum
        (record (ipv4_header source_ip destination_ip 17 size) { header_checksum = 0 })
      ≡ (ipv4_header source_ip destination_ip 17 size).header_checksum
unfolding ipv4_header
header_checks source_ip destination_ip size = rw htons-zero refl

header_fields :
    (source_ip destination_ip : Ip) (size : ℕ)
    → ((ipv4_header source_ip destination_ip 17 size).version ≡ 4)
      × ((ipv4_header source_ip destination_ip 17 size).protocol ≡ 17)
      × ((ipv4_header source_ip destination_ip 17 size).source_ip ≡ source_ip)
      × ((ipv4_header source_ip destination_ip 17 size).destination_ip ≡ destination_ip)
unfolding ipv4_header
header_fields source_ip destination_ip size = (refl, refl, refl, refl)

same_number : (n : ℕ) → (n == n) ≡ true
same_number n = ground arith

-- A packet for UDP whose checksum is right is passed on.
receive_ipv4 :
    (protocols : Protocols) (packet : Ipv4Packet) (bytes : List ℕ) (s : Net)
    → packet.version ≡ 4
    → packet.protocol ≡ 17
    → ipv4_calculate_checksum (record packet { header_checksum = 0 }) ≡ packet.header_checksum
    → ipv4_receive_packet protocols packet bytes s ≡ protocols.udp packet bytes s
unfolding ipv4_receive_packet
receive_ipv4 protocols packet bytes s version protocol checksum =
    let four : (packet.version == 4) ≡ true = rw version refl in
    let right : (packet.header_checksum
          == ipv4_calculate_checksum (record packet { header_checksum = 0 }))
        ≡ true =
      ap (λ c. packet.header_checksum == c) checksum ∙ same_number packet.header_checksum in
    let not_icmp : (packet.protocol == 1) ≡ false = rw protocol refl in
    let for_udp : (packet.protocol == 17) ≡ true = rw protocol refl in
    rw (four, right, not_icmp, for_udp) refl

-- A datagram whose checksum is right goes to the listener of its port.
listener_called :
    (udp_listeners : Listeners) (ipv4_packet : Ipv4Packet) (packet : UdpPacket) (bytes : List ℕ)
    (s : Net) (listener : List ℕ → Net → Net)
    → ntohs packet.length ≡ length bytes + 8
    → length bytes < 2 ^ 16
    → udp_calculate_checksum packet ipv4_packet.source_ip ipv4_packet.destination_ip bytes
      ≡ packet.checksum
    → udp_listeners (ntohs packet.destination_port) ≡ some listener
    → udp_receive_packet udp_listeners ipv4_packet packet bytes s ≡ listener bytes s
unfolding udp_receive_packet
listener_called udp_listeners ipv4_packet packet bytes s listener size small checksum port =
    let whole : (ntohs packet.length + 2 ^ 32 - 8) % 2 ^ 32 ≡ length bytes =
      omega (arith, size, small) in
    let right : (packet.checksum
          == udp_calculate_checksum packet ipv4_packet.source_ip ipv4_packet.destination_ip bytes)
        ≡ true =
      ap (λ c. packet.checksum == c) checksum ∙ same_number packet.checksum in
    let body : take ((ntohs packet.length + 2 ^ 32 - 8) % 2 ^ 32) bytes ≡ bytes =
      ap (λ n. take n bytes) whole ∙ take-length bytes in
    rw (whole, take-length bytes, right, port) (ap (λ b. listener b s) body)

-- The header of `udp_send_packet` has a checksum that is right, and the length of the datagram.
udp_header_checks :
    (source_ip destination_ip : Ip) (source_port destination_port : ℕ) (bytes : List ℕ)
    → udp_calculate_checksum
        (udp_header source_ip source_port destination_ip destination_port bytes)
        source_ip
        destination_ip
        bytes
      ≡ (udp_header source_ip source_port destination_ip destination_port bytes).checksum
unfolding udp_header udp_calculate_checksum
udp_header_checks source_ip destination_ip source_port destination_port bytes = refl

udp_header_fields :
    (source_ip destination_ip : Ip) (source_port destination_port : ℕ) (bytes : List ℕ)
    → length bytes + 8 < 2 ^ 16
    → destination_port < 2 ^ 16
    → (ntohs (udp_header source_ip source_port destination_ip destination_port bytes).length
        ≡ length bytes + 8)
      × (ntohs
            (udp_header source_ip source_port destination_ip destination_port
              bytes).destination_port
          ≡ destination_port)
unfolding udp_header
udp_header_fields source_ip destination_ip source_port destination_port bytes small port =
    let whole : (length bytes + 8) % 2 ^ 16 ≡ length bytes + 8 = omega (arith, small) in
    (
      ntohs-htons ((length bytes + 8) % 2 ^ 16) (omega arith) ∙ whole,
      ntohs-htons destination_port port,
    )

process_ipv4 :
    (protocols : Protocols) (frame : Frame) (packet : Ipv4Packet) (bytes : List ℕ) (s : Net)
    → ntohs frame.ethertype ≡ ethertype_ipv4
    → frame.payload ≡ ipv4 packet bytes
    → ethernet_process_packet protocols frame s ≡ ipv4_receive_packet protocols packet bytes s
unfolding ethernet_process_packet
process_ipv4 protocols frame packet bytes s type carries = rw (carries, type) refl

udp_send_packet_lem :
    (arrivals arrivals' : Arrivals) (source_ip destination_ip : Ip)
    (source_port destination_port : ℕ) (bytes : List ℕ) (s : Net)
    → udp_send_packet arrivals arrivals' source_ip source_port destination_ip destination_port bytes
        s
      ≡ ipv4_send_packet arrivals arrivals' source_ip destination_ip 17
          (udp_bytes (udp_header source_ip source_port destination_ip destination_port bytes)
            ++ bytes)
          s
unfolding udp_send_packet
udp_send_packet_lem arrivals arrivals' source_ip destination_ip source_port destination_port bytes
      s =
    refl

-- When there is a hop for the destination, `udp_send_packet` of data that fits into a datagram sends
-- one frame to that hop, and any machine with a listener on the destination port that takes in
-- this frame calls the listener with exactly the data, whatever the addresses, and changes nothing
-- else.
pub udp_receive-send_packet :
    (arrivals arrivals' : Arrivals) (source_ip destination_ip : Ip)
    (source_port destination_port : ℕ) (bytes : List ℕ) (s s' r : Net) (mac : List ℕ)
    (udp_listeners : Listeners) (listener : List ℕ → Net → Net)
    (tcp : Ipv4Packet → List ℕ → Net → Net)
    → length bytes + 8 < 2 ^ 16
    → destination_port < 2 ^ 16
    → next_hop arrivals arrivals' destination_ip s ≡ (some mac, s')
    → udp_listeners destination_port ≡ some listener
    → (frame : Frame) × (frame.destination_mac ≡ mac)
      × (udp_send_packet arrivals arrivals' source_ip source_port destination_ip destination_port
            bytes s
          ≡ (true, sent_frame frame s'))
      × (ethernet_process_packet (record { udp = receive_udp udp_listeners; tcp = tcp }) frame r
          ≡ listener bytes r)
udp_receive-send_packet arrivals arrivals' source_ip destination_ip source_port destination_port
      bytes s s' r mac udp_listeners listener tcp small port hop listens =
    let datagram = udp_header source_ip source_port destination_ip destination_port bytes in
    let content = udp_bytes datagram ++ bytes in
    let packet = ipv4_header source_ip destination_ip 17 (length content) in
    let frame = frame_of mac ethertype_ipv4 (ipv4 packet content) (20 + length content) s' in
    let protocols : Protocols = record { udp = receive_udp udp_listeners; tcp = tcp } in
    let (version, protocol, from, to) = header_fields source_ip destination_ip (length content) in
    let (size, to_port) =
      udp_header_fields source_ip destination_ip source_port destination_port bytes small port in
    (
      frame,
      refl,
      udp_send_packet_lem arrivals arrivals' source_ip destination_ip source_port destination_port
            bytes s
          ∙ ipv4_send_packet-hop arrivals arrivals' source_ip destination_ip 17 content s s' mac
              hop,
      process_ipv4 protocols frame packet content r (ntohs-htons ethertype_ipv4 (omega arith)) refl
          ∙ receive_ipv4 protocols packet content r version protocol
              (header_checks source_ip destination_ip (length content))
          ∙ ap (λ h. udp_receive_packet udp_listeners packet h bytes r)
              (udp_packet-udp_bytes datagram bytes)
          ∙ listener_called udp_listeners packet datagram bytes r listener size
              (omega (arith, small))
              (ap₂ (λ a b. udp_calculate_checksum datagram a b bytes) from to
                ∙ udp_header_checks source_ip destination_ip source_port destination_port bytes)
              (ap udp_listeners to_port ∙ listens),
    )
