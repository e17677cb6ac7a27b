-- ===== src/Net.antt =====
-- The network of kernel/modules/net and kernel/drivers/ethernet.c: packets, the state of a machine,
-- and the frames that it sends. A field of two bytes or four holds the number that stands in memory,
-- so that `htons` and `ntohs` swap it. The device itself is not under this model: `sent` is what its
-- `write` is called with, in order.
pub mod Checksum
pub mod Arp
pub mod Ipv4
pub mod Udp
pub mod Dhcp
pub mod Tests
use dos.Prelude.{Bool, List, [], ℕ, ◌&&◌, ◌++◌, ◌==◌, ◌∷◌}
use dos.Inet.{htons, ntohs}

pub record Ip : Type 0 where
  pub ip0 : ℕ
  pub ip1 : ℕ
  pub ip2 : ℕ
  pub ip3 : ℕ

-- The comparison of all four bytes.
unfoldable pub same_ip : Ip → Ip → Bool
same_ip a b = a.ip0 == b.ip0 && a.ip1 == b.ip1 && a.ip2 == b.ip2 && a.ip3 == b.ip3

pub record ArpPacket : Type 0 where
  pub hardware_type : ℕ
  pub protocol_type : ℕ
  pub hardware_size : ℕ
  pub protocol_size : ℕ
  pub opcode : ℕ
  pub sender_mac : List ℕ
  pub sender_ip : Ip
  pub target_mac : List ℕ
  pub target_ip : Ip

pub record Ipv4Packet : Type 0 where
  pub ihl : ℕ
  pub version : ℕ
  pub ecn : ℕ
  pub dscp : ℕ
  pub total_length : ℕ
  pub identification : ℕ
  pub fragment_offset : ℕ
  pub flags : ℕ
  pub ttl : ℕ
  pub protocol : ℕ
  pub header_checksum : ℕ
  pub source_ip : Ip
  pub destination_ip : Ip

-- What a frame carries: an ARP packet, or an IPv4 header and the bytes behind it.
pub data Payload : Type 0 where
  arp : ArpPacket → Payload
  ipv4 : Ipv4Packet → List ℕ → Payload

pub record Frame : Type 0 where
  pub destination_mac : List ℕ
  pub source_mac : List ℕ
  pub ethertype : ℕ
  pub payload : Payload
  pub data_size : ℕ

pub record EthernetDriver : Type 0 where
  pub mac : List ℕ
  pub ip : Ip
  pub netmask : Ip
  pub gateway : Ip
  pub dns : Ip
  pub lease_time : ℕ

pub record ArpMap : Type 0 where
  pub ip : Ip
  pub mac : List ℕ

-- The entries 0 to 9 are those of the array `arp_list`. `overrun` is what writing an entry behind the
-- array makes of the entries and of `curr_arp`, which the source leaves to the layout of the memory.
pub record Net : Type 0 where
  pub driver : EthernetDriver
  pub arp_list : ℕ → ArpMap
  pub curr_arp : ℕ
  pub overrun : ArpMap → (ℕ → ArpMap) × ℕ → (ℕ → ArpMap) × ℕ
  pub sent : List Frame

abbrev pub ethertype_arp : ℕ
ethertype_arp = 0x0806

abbrev pub ethertype_ipv4 : ℕ
ethertype_ipv4 = 0x0800

abbrev pub frame_of : List ℕ → ℕ → Payload → ℕ → Net → Frame
frame_of destination_mac ethertype bytes data_size s = record {
  destination_mac = destination_mac;
  source_mac = s.driver.mac;
  ethertype = htons ethertype;
  payload = bytes;
  data_size = data_size;
}

unfoldable pub ethernet_send_packet : List ℕ → ℕ → Payload → ℕ → Net → Net
ethernet_send_packet destination_mac ethertype bytes data_size s = record s {
  sent = s.sent ++ frame_of destination_mac ethertype bytes data_size s ∷ [];
}
