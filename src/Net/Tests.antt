-- ===== src/Net/Tests.antt =====
-- Two machines on one network, 192.168.0.1 and 192.168.0.2, and a gateway at 192.168.0.254.
use dos.Prelude.{
  List, [], arith, if◌then◌else◌, length, none, refl, some, true, ℕ, ◌++◌, ◌<◌, ◌==◌, ◌∷◌, ◌≡◌,
}
use dos.Inet.{ntohs}
use dos.Inet.Laws.{ntohs-htons}
use dos.Net.{Ip, same_ip, ArpPacket, Net, Frame, Ipv4Packet}
use dos.Net.Checksum.Fold.{nil, cons}
use dos.Net.Arp.{Arrivals, arp_packet, arp_lookup, arp_send_request, receive_all}
use dos.Net.Arp.Protocol.{arp_request-reply}
use dos.Net.Arp.Replies.{nil as no_more, cons as and, StandsFrom, receive_all-StandsFrom}
use dos.Net.Ipv4.{
  Protocols, ethernet_process_packet, ipv4_calculate_checksum, ipv4_is_cidr_subnet,
  ipv4_send_packet,
}
use dos.Net.Ipv4.Header.{IsHeader, ipv4_calculate_checksum-verifies}
use dos.Net.Ipv4.Hop.{sent_frame, ipv4_send_packet-neighbour, next_hop-neighbour}
use dos.Net.Udp.{Listeners, udp_send_packet, receive_udp}
use dos.Net.Udp.Delivery.{udp_receive-send_packet}

abbrev pub address : ℕ → Ip
address n = record { ip0 = 192; ip1 = 168; ip2 = 0; ip3 = n }

abbrev mac_of : ℕ → List ℕ
mac_of n = 2 ∷ 0 ∷ 0 ∷ 0 ∷ 0 ∷ n ∷ []

abbrev pub machine : ℕ → Net
machine n = record {
  driver = record {
    mac = mac_of n;
    ip = address n;
    netmask = record { ip0 = 255; ip1 = 255; ip2 = 255; ip3 = 0 };
    gateway = address 254;
    dns = address 0;
    lease_time = 0;
  };
  arp_list = λ i. record { ip = address 0; mac = [] };
  curr_arp = 0;
  overrun = λ entry variables. variables;
  sent = [];
}

-- Machine 1 knows 192.168.0.2 and the gateway.
abbrev knowing : Net
knowing = record (machine 1) {
  arp_list = λ i.
      if i == 0
      then record { ip = address 2; mac = mac_of 2 }
      else record { ip = address 254; mac = mac_of 254 };
  curr_arp = 2;
}

abbrev no_protocols : Protocols
no_protocols = record { udp = λ packet bytes s. s; tcp = λ packet bytes s. s }

abbrev nothing : Arrivals
nothing t = []

lookup_unknown : arp_lookup (machine 1) (address 2) ≡ none
unfolding arp_lookup
lookup_unknown = refl

lookup_neighbour : arp_lookup knowing (address 2) ≡ some (mac_of 2)
unfolding arp_lookup same_ip
lookup_neighbour = refl

lookup_gateway : arp_lookup knowing (address 254) ≡ some (mac_of 254)
unfolding arp_lookup same_ip
lookup_gateway = refl

neighbour_inside : ipv4_is_cidr_subnet (address 2) (address 1) knowing.driver.netmask ≡ true
unfolding ipv4_is_cidr_subnet
neighbour_inside = refl

arp_request-reply_example :
    (request : Frame) × (reply : Frame) × ((arp_send_request (address 2) (machine 1)).sent
      ≡ [] ++ request ∷ [])
    × ((ethernet_process_packet no_protocols request (machine 2)).sent ≡ [] ++ reply ∷ [])
    × (reply.destination_mac ≡ mac_of 1)
    × (arp_lookup
          (ethernet_process_packet no_protocols reply (arp_send_request (address 2) (machine 1)))
          (address 2)
        ≡ some (mac_of 2))
arp_request-reply_example =
    arp_request-reply no_protocols (machine 1) (machine 2) (omega arith) lookup_unknown

abbrev reply_of : ℕ → ArpPacket
reply_of n = arp_packet 2 (mac_of 1) (address 1) (machine n)

replies : (n : ℕ) → ntohs (reply_of n).opcode ≡ 2
replies n = ntohs-htons 2 (omega arith)

abbrev ten : List ArpPacket
ten =
    reply_of 2
    ∷ reply_of 3
    ∷ reply_of 4
    ∷ reply_of 5
    ∷ reply_of 6
    ∷ reply_of 7
    ∷ reply_of 8
    ∷ reply_of 9
    ∷ reply_of 10
    ∷ reply_of 11
    ∷ []

receive_all-StandsFrom_example :
    ((receive_all ten (machine 1)).curr_arp ≡ 10)
    × ((i : ℕ) → i < 0 → (receive_all ten (machine 1)).arp_list i ≡ (machine 1).arp_list i)
    × StandsFrom 0 ten (receive_all ten (machine 1)).arp_list
receive_all-StandsFrom_example =
    receive_all-StandsFrom {packets = ten} (machine 1)
      (and (replies 2) (
        and (replies 3) (
          and (replies 4) (
            and (replies 5) (
              and (replies 6) (
                and (replies 7) (
                  and (replies 8)
                    (and (replies 9) (and (replies 10) (and (replies 11) no_more))))))))))
      (omega arith)

abbrev header : Ipv4Packet
header = record {
  ihl = 5;
  version = 4;
  ecn = 0;
  dscp = 0;
  total_length = 0x7300;
  identification = 0;
  fragment_offset = 0x40;
  flags = 0;
  ttl = 64;
  protocol = 17;
  header_checksum = 0;
  source_ip = address 1;
  destination_ip = address 199;
}

-- A header that is often used as an example, with the bytes B8 61 for its checksum.
checksum_header : ipv4_calculate_checksum header ≡ 0x61B8
unfolding ipv4_calculate_checksum
checksum_header = refl

header-IsHeader : IsHeader header
header-IsHeader = record {
  front_bytes = cons (omega arith) (
      cons (omega arith) (
        cons (omega arith) (
          cons (omega arith) (
            cons (omega arith) (
              cons (omega arith) (
                cons (omega arith)
                  (cons (omega arith) (cons (omega arith) (cons (omega arith) nil)))))))));
  back_bytes = cons (omega arith) (
      cons (omega arith) (
        cons (omega arith) (
          cons (omega arith) (
            cons (omega arith)
              (cons (omega arith) (cons (omega arith) (cons (omega arith) nil)))))));
}

checksum-verifies_example :
    ipv4_calculate_checksum (record header {
      header_checksum = ipv4_calculate_checksum (record header { header_checksum = 0 });
    })
    ≡ 0
checksum-verifies_example = ipv4_calculate_checksum-verifies header header-IsHeader

neighbour_example :
    (frame : Frame) × (frame.destination_mac ≡ mac_of 254)
    × (ipv4_send_packet nothing nothing (address 1) (address 2) 17 (1 ∷ 2 ∷ []) knowing
        ≡ (true, sent_frame frame knowing))
neighbour_example =
    ipv4_send_packet-neighbour nothing nothing (address 1) (address 2) 17 (1 ∷ 2 ∷ []) knowing
      (mac_of 2) (mac_of 254) refl neighbour_inside lookup_neighbour lookup_gateway

-- The listener takes the data for an address.
abbrev listener : List ℕ → Net → Net
listener bytes s = record s { curr_arp = length bytes }

abbrev listeners : Listeners
listeners port = if port == 68 then some listener else none

udp_receive-send_example :
    (frame : Frame) × (frame.destination_mac ≡ mac_of 254)
    × (udp_send_packet nothing nothing (address 1) 67 (address 2) 68 (1 ∷ 2 ∷ 3 ∷ []) knowing
        ≡ (true, sent_frame frame knowing))
    × (ethernet_process_packet
          (record { udp = receive_udp listeners; tcp = λ packet bytes s. s })
          frame
          (machine 2)
        ≡ listener (1 ∷ 2 ∷ 3 ∷ []) (machine 2))
udp_receive-send_example =
    udp_receive-send_packet nothing nothing (address 1) (address 2) 67 68 (1 ∷ 2 ∷ 3 ∷ []) knowing
      knowing (machine 2) (mac_of 254) listeners listener (λ packet bytes s. s) (omega arith)
      (omega arith)
      (next_hop-neighbour nothing nothing (address 2) knowing (mac_of 2) (mac_of 254) refl
        neighbour_inside lookup_neighbour lookup_gateway)
      refl
