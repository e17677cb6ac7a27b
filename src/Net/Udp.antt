-- ===== src/Net/Udp.antt =====
-- kernel/modules/net/udp.c. The header in memory is read and written as bytes.
pub mod Delivery
use dos.Prelude.{
  Bool, List, Option, drop, false, get_or, if◌then◌else◌, length, none, not, some, take, true, ℕ,
  ◌%◌, ◌*◌, ◌++◌, ◌+◌, ◌-◌, ◌==◌, ◌^◌, ◌∷◌,
}
use dos.Inet.{htons, ntohs}
use dos.Net.{Ip, Ipv4Packet, Net, ArpPacket}
use dos.Net.Arp.{Arrivals}
use dos.Net.Checksum.{add_words, finish_checksum}
use dos.Net.Ipv4.{ip_bytes, word_bytes, ipv4_send_packet}

pub record UdpPacket : Type 0 where
  pub source_port : ℕ
  pub destination_port : ℕ
  pub length : ℕ
  pub checksum : ℕ

abbrev pub udp_bytes : UdpPacket → List ℕ
udp_bytes packet =
    word_bytes packet.source_port
    ++ word_bytes packet.destination_port
    ++ word_bytes packet.length
    ++ word_bytes packet.checksum

abbrev pub word_at : List ℕ → ℕ → ℕ
word_at bytes i = get_or bytes i 0 + get_or bytes (i + 1) 0 * 2 ^ 8

-- The cast of the bytes behind the IPv4 header to a `udp_packet`.
abbrev pub udp_packet : List ℕ → UdpPacket
udp_packet bytes = record {
  source_port = word_at bytes 0;
  destination_port = word_at bytes 2;
  length = word_at bytes 4;
  checksum = word_at bytes 6;
}

unfoldable pub udp_calculate_checksum : UdpPacket → Ip → Ip → List ℕ → ℕ
unfolding add_words finish_checksum
udp_calculate_checksum packet source_ip destination_ip bytes =
    let ipv4_header =
      ip_bytes source_ip ++ ip_bytes destination_ip ++ (0 ∷ 17 ∷ word_bytes packet.length) in
    let pseudo_header = udp_bytes (record packet { checksum = 0 }) in
    finish_checksum (add_words bytes (add_words pseudo_header (add_words ipv4_header 0)))

unfoldable pub udp_header : Ip → ℕ → Ip → ℕ → List ℕ → UdpPacket
udp_header source_ip source_port destination_ip destination_port bytes =
    let packet : UdpPacket = record {
      source_port = htons source_port;
      destination_port = htons destination_port;
      length = htons ((length bytes + 8) % 2 ^ 16);
      checksum = 0;
    } in
    record packet { checksum = udp_calculate_checksum packet source_ip destination_ip bytes }

unfoldable pub udp_send_packet : Arrivals → Arrivals → Ip → ℕ → Ip → ℕ → List ℕ → Net → Bool × Net
udp_send_packet arrivals arrivals' source_ip source_port destination_ip destination_port bytes s =
    let packet = udp_header source_ip source_port destination_ip destination_port bytes in
    ipv4_send_packet arrivals arrivals' source_ip destination_ip 17 (udp_bytes packet ++ bytes) s

-- `udp_listeners`: a listener gets the data and changes the state.
abbrev pub Listeners : Type 0
Listeners = ℕ → Option (List ℕ → Net → Net)

unfoldable pub udp_install_listener : ℕ → (List ℕ → Net → Net) → Listeners → Bool × Listeners
udp_install_listener port listener udp_listeners = elim (udp_listeners port) [
  | some other ↦ (false, udp_listeners)
  | none ↦ (true, λ i. if i == port then some listener else udp_listeners i)
]

unfoldable pub udp_uninstall_listener : ℕ → Listeners → Listeners
udp_uninstall_listener port udp_listeners i = if i == port then none else udp_listeners i

-- The `data_size` of the listener is the length of what it gets. A length past the end of what has
-- come in reads memory behind it in the code, and ends there in the model.
unfoldable pub udp_receive_packet : Listeners → Ipv4Packet → UdpPacket → List ℕ → Net → Net
udp_receive_packet udp_listeners ipv4_packet packet bytes s =
    let size = (ntohs packet.length + 2 ^ 32 - 8) % 2 ^ 32 in
    let body = take size bytes in
    let checksum =
      udp_calculate_checksum packet ipv4_packet.source_ip ipv4_packet.destination_ip body in
    if not (packet.checksum == checksum)
    then s
    else elim (udp_listeners (ntohs packet.destination_port)) [
      | none ↦ s
      | some listener ↦ listener body s
    ]

-- The call in `ipv4_receive_packet`.
abbrev pub receive_udp : Listeners → Ipv4Packet → List ℕ → Net → Net
receive_udp udp_listeners ipv4_packet bytes s =
    udp_receive_packet udp_listeners ipv4_packet (udp_packet bytes) (drop 8 bytes) s
