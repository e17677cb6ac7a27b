-- ===== src/Net/Arp.antt =====
-- kernel/modules/net/arp.c: who has which address.
pub mod Table
pub mod Protocol
pub mod Wait
pub mod Replies
use dos.Prelude.{
  List, Option, [], if◌then◌else◌, ltb, none, not, replicate, some, suc, zero, ℕ, ◌+◌, ◌/◌, ◌==◌,
  ◌∷◌,
}
use dos.Inet.{htons, ntohs}
use dos.Net.{Ip, same_ip, ArpPacket, ArpMap, Net, arp, ethertype_arp, ethernet_send_packet}

-- `sizeof(arp_list)`, which the guard of `arp_process_reply` takes for the number of entries: ten
-- entries of ten bytes.
abbrev pub arp_list_size : ℕ
arp_list_size = 100

-- The entries of the array.
abbrev pub arp_list_len : ℕ
arp_list_len = 10

-- The loop over the entries, `left` of them from `i` on.
unfoldable pub find_mac : (ℕ → ArpMap) → Ip → ℕ → ℕ → Option (List ℕ)
find_mac arp_list ip zero i = none
find_mac arp_list ip (suc left) i =
    let rest = find_mac arp_list ip left (i + 1) in
    if same_ip (arp_list i).ip ip then some (arp_list i).mac else rest

unfoldable pub arp_lookup : Net → Ip → Option (List ℕ)
unfolding find_mac
arp_lookup s ip = find_mac s.arp_list ip s.curr_arp 0

-- The packets that are sent.
abbrev pub arp_packet : ℕ → List ℕ → Ip → Net → ArpPacket
arp_packet opcode target_mac target_ip s = record {
  hardware_type = htons 1;
  protocol_type = htons 0x0800;
  hardware_size = 6;
  protocol_size = 4;
  opcode = htons opcode;
  sender_mac = s.driver.mac;
  sender_ip = s.driver.ip;
  target_mac = target_mac;
  target_ip = target_ip;
}

unfoldable pub arp_send_request : Ip → Net → Net
unfolding ethernet_send_packet
arp_send_request ip s =
    ethernet_send_packet (replicate 6 0xFF) ethertype_arp (arp (arp_packet 1 (replicate 6 0) ip s))
      28 s

unfoldable pub arp_send_reply : Ip → List ℕ → Net → Net
unfolding ethernet_send_packet
arp_send_reply ip mac s = ethernet_send_packet mac ethertype_arp (arp (arp_packet 2 mac ip s)) 28 s

unfoldable pub arp_process_request : ArpPacket → Net → Net
unfolding arp_send_reply
arp_process_request packet s =
    if same_ip s.driver.ip packet.target_ip
    then arp_send_reply packet.sender_ip packet.sender_mac s
    else s

-- The guard of the code lets writes behind the ten entries of the array through.
unfoldable pub arp_process_reply : ArpPacket → Net → Net
arp_process_reply packet s =
    let entry : ArpMap = record { ip = packet.sender_ip; mac = packet.sender_mac } in
    let behind = s.overrun entry (s.arp_list, s.curr_arp) in
    if not (ltb s.curr_arp arp_list_size)
    then s
    else if ltb s.curr_arp arp_list_len
    then record s {
      arp_list = λ i. if i == s.curr_arp then entry else s.arp_list i;
      curr_arp = s.curr_arp + 1;
    }
    else record s { arp_list = behind.0; curr_arp = behind.1 + 1 }

unfoldable pub arp_receive_packet : ArpPacket → Net → Net
unfolding arp_process_request arp_process_reply
arp_receive_packet packet s =
    let opcode = ntohs packet.opcode in
    if opcode == 1
    then arp_process_request packet s
    else if opcode == 2
    then arp_process_reply packet s
    else s

-- The packets that come in one after the other.
abbrev pub receive_all : List ArpPacket → Net → Net
receive_all [] s = s
receive_all (packet ∷ packets) s = receive_all packets (arp_receive_packet packet s)

-- What the interrupts bring in during each wait of 10 ms.
abbrev pub Arrivals : Type 0
Arrivals = ℕ → List ArpPacket

abbrev pub later : Arrivals → Arrivals
later arrivals t = arrivals (suc t)

-- The loop of `arp_get_mac` that waits, `rounds` times.
unfoldable pub wait_mac : ℕ → Arrivals → Ip → Net → Option (List ℕ) × Net
unfolding arp_lookup
wait_mac zero arrivals ip s = (none, s)
wait_mac (suc rounds) arrivals ip s =
    let s' = receive_all (arrivals 0) s in
    let rest = wait_mac rounds (later arrivals) ip s' in
    elim (arp_lookup s' ip) [ some mac ↦ (some mac, s') | none ↦ rest ]

-- The result is the MAC address for true.
unfoldable pub arp_get_mac : Arrivals → Ip → ℕ → Net → Option (List ℕ) × Net
unfolding arp_lookup arp_send_request wait_mac
arp_get_mac arrivals ip timeout s = elim (arp_lookup s ip) [
  | some mac ↦ (some mac, s)
  | none ↦ wait_mac ((timeout + 9) / 10) arrivals ip (arp_send_request ip s)
]
