-- ===== src/Net/Ipv4.antt =====
-- kernel/modules/net/ip.c.
pub mod Header
pub mod Hop
use dos.Prelude.{
  Bool, List, Option, [], bit_and, false, if◌then◌else◌, length, none, not, replicate, some, true,
  ℕ, ◌%◌, ◌&&◌, ◌*◌, ◌++◌, ◌+◌, ◌/◌, ◌==◌, ◌^◌, ◌∷◌,
}
use dos.Inet.{htons, ntohs}
use dos.Net.{
  Ip, Ipv4Packet, EthernetDriver, Net, ArpPacket, Payload, Frame, arp, ipv4, ethertype_arp,
  ethertype_ipv4, ethernet_send_packet,
}
use dos.Net.Arp.{Arrivals, arp_get_mac, arp_receive_packet}
use dos.Net.Checksum.{add_words, finish_checksum}

unfoldable pub ipv4_is_cidr_subnet : Ip → Ip → Ip → Bool
ipv4_is_cidr_subnet ip netip mask =
    bit_and ip.ip0 mask.ip0 == bit_and netip.ip0 mask.ip0
    && bit_and ip.ip1 mask.ip1 == bit_and netip.ip1 mask.ip1
    && bit_and ip.ip2 mask.ip2 == bit_and netip.ip2 mask.ip2
    && bit_and ip.ip3 mask.ip3 == bit_and netip.ip3 mask.ip3

abbrev pub ip_bytes : Ip → List ℕ
ip_bytes ip = ip.ip0 ∷ ip.ip1 ∷ ip.ip2 ∷ ip.ip3 ∷ []

abbrev pub word_bytes : ℕ → List ℕ
word_bytes word = word % 2 ^ 8 ∷ word / 2 ^ 8 ∷ []

-- The header in memory; bit fields fill a byte from its low end.
unfoldable pub header_bytes : Ipv4Packet → List ℕ
header_bytes packet =
    (packet.ihl + packet.version * 2 ^ 4)
      ∷ (packet.ecn + packet.dscp * 2 ^ 2)
      ∷ word_bytes packet.total_length
    ++ word_bytes packet.identification
    ++ word_bytes (packet.fragment_offset + packet.flags * 2 ^ 13)
    ++ (packet.ttl ∷ packet.protocol ∷ word_bytes packet.header_checksum)
    ++ ip_bytes packet.source_ip
    ++ ip_bytes packet.destination_ip

unfoldable pub ipv4_calculate_checksum : Ipv4Packet → ℕ
unfolding header_bytes add_words finish_checksum
ipv4_calculate_checksum packet = finish_checksum (add_words (header_bytes packet) 0)

abbrev pub is_broadcast : Ip → Bool
is_broadcast ip = ip.ip0 == 255 && ip.ip1 == 255 && ip.ip2 == 255 && ip.ip3 == 255

abbrev broadcast_mac : List ℕ
broadcast_mac = replicate 6 0xFF

-- The last two branches, after the lookup in the subnet, if there was one.
unfoldable pub gateway_hop : Arrivals → Bool → Option (List ℕ) × Net → Option (List ℕ) × Net
unfolding arp_get_mac
gateway_hop arrivals inside (none, s) =
    let hop = arp_get_mac arrivals s.driver.gateway 100 s in if inside then (none, s) else hop
gateway_hop arrivals inside (some mac, s) = arp_get_mac arrivals s.driver.gateway 100 s

-- The choice of `destination_mac`, with the packets that come in while the first lookup waits and
-- those while the second does.
unfoldable pub next_hop : Arrivals → Arrivals → Ip → Net → Option (List ℕ) × Net
unfolding arp_get_mac gateway_hop
next_hop arrivals arrivals' destination_ip s =
    let inside = ipv4_is_cidr_subnet destination_ip s.driver.ip s.driver.netmask in
    let found = arp_get_mac arrivals destination_ip 100 s in
    let hop = gateway_hop arrivals' inside (if inside then found else (none, s)) in
    if is_broadcast destination_ip then (some broadcast_mac, s) else hop

-- The header that is sent, with its checksum.
unfoldable pub ipv4_header : Ip → Ip → ℕ → ℕ → Ipv4Packet
ipv4_header source_ip destination_ip protocol size =
    let packet : Ipv4Packet = record {
      ihl = 5;
      version = 4;
      ecn = 0;
      dscp = 0;
      total_length = htons ((20 + size) % 2 ^ 16);
      identification = htons 0;
      fragment_offset = htons 0;
      flags = 0;
      ttl = 64;
      protocol = protocol;
      header_checksum = htons 0;
      source_ip = source_ip;
      destination_ip = destination_ip;
    } in
    record packet { header_checksum = ipv4_calculate_checksum packet }

unfoldable pub send_hop : Ip → Ip → ℕ → List ℕ → Option (List ℕ) × Net → Bool × Net
unfolding ipv4_header ethernet_send_packet
send_hop source_ip destination_ip protocol bytes (none, s) = (false, s)
send_hop source_ip destination_ip protocol bytes (some mac, s) =
    let packet = ipv4_header source_ip destination_ip protocol (length bytes) in
    (true, ethernet_send_packet mac ethertype_ipv4 (ipv4 packet bytes) (20 + length bytes) s)

-- `bytes` are the protocol's header and its data.
unfoldable pub ipv4_send_packet : Arrivals → Arrivals → Ip → Ip → ℕ → List ℕ → Net → Bool × Net
unfolding next_hop send_hop
ipv4_send_packet arrivals arrivals' source_ip destination_ip protocol bytes s =
    send_hop source_ip destination_ip protocol bytes (next_hop arrivals arrivals' destination_ip s)

-- What the protocols do with a packet; `icmp_receive_packet` does nothing.
pub record Protocols : Type 0 where
  pub udp : Ipv4Packet → List ℕ → Net → Net
  pub tcp : Ipv4Packet → List ℕ → Net → Net

unfoldable pub ipv4_receive_packet : Protocols → Ipv4Packet → List ℕ → Net → Net
ipv4_receive_packet protocols packet bytes s =
    let checksum = ipv4_calculate_checksum (record packet { header_checksum = 0 }) in
    if not (packet.version == 4)
    then s
    else if not (packet.header_checksum == checksum)
    then s
    else if packet.protocol == 1
    then s
    else if packet.protocol == 17
    then protocols.udp packet bytes s
    else if packet.protocol == 6
    then protocols.tcp packet bytes s
    else s

-- `ethernet_process_packet`. A frame carries the kind of packet that its type names.
unfoldable pub ethernet_process_packet : Protocols → Frame → Net → Net
ethernet_process_packet protocols frame s = elim frame.payload [
  | arp packet ↦ if ntohs frame.ethertype == ethertype_arp then arp_receive_packet packet s else s
  | ipv4 packet bytes ↦
      if ntohs frame.ethertype == ethertype_ipv4
      then ipv4_receive_packet protocols packet bytes s
      else s
]
