-- ===== src/Net/Ipv4/Hop.antt =====
-- Where kernel/modules/net/ip.c sends a packet.
use dos.Prelude.{Bool, List, [], ap, false, length, refl, some, true, ℕ, ◌++◌, ◌+◌, ◌∙◌, ◌∷◌, ◌≡◌}
use dos.Net.{Ip, Net, Frame, ipv4, frame_of, ethertype_ipv4, ethernet_send_packet}
use dos.Net.Arp.{Arrivals, arp_lookup, arp_get_mac}
use dos.Net.Arp.Wait.{arp_get_mac_known}
use dos.Net.Ipv4.{
  ipv4_is_cidr_subnet, is_broadcast, gateway_hop, next_hop, send_hop, ipv4_header, ipv4_send_packet,
}

-- The state in which a frame has been sent behind the others.
abbrev pub sent_frame : Frame → Net → Net
sent_frame frame s = record s { sent = s.sent ++ frame ∷ [] }

send_hop-some :
    (source_ip destination_ip : Ip) (protocol : ℕ) (bytes mac : List ℕ) (s : Net)
    → send_hop source_ip destination_ip protocol bytes (some mac, s) ≡ (
      true,
      sent_frame
          (frame_of mac ethertype_ipv4
            (ipv4 (ipv4_header source_ip destination_ip protocol (length bytes)) bytes)
            (20 + length bytes)
            s)
          s,
    )
unfolding send_hop ethernet_send_packet
send_hop-some source_ip destination_ip protocol bytes mac s = refl

-- Once there is a hop, one frame with the header and the bytes goes there.
pub ipv4_send_packet-hop :
    (arrivals arrivals' : Arrivals) (source_ip destination_ip : Ip) (protocol : ℕ) (bytes : List ℕ)
    (s s' : Net) (mac : List ℕ)
    → next_hop arrivals arrivals' destination_ip s ≡ (some mac, s')
    → ipv4_send_packet arrivals arrivals' source_ip destination_ip protocol bytes s ≡ (
      true,
      sent_frame
          (frame_of mac ethertype_ipv4
            (ipv4 (ipv4_header source_ip destination_ip protocol (length bytes)) bytes)
            (20 + length bytes)
            s')
          s',
    )
unfolding ipv4_send_packet
ipv4_send_packet-hop arrivals arrivals' source_ip destination_ip protocol bytes s s' mac hop =
    ap (send_hop source_ip destination_ip protocol bytes) hop
    ∙ send_hop-some source_ip destination_ip protocol bytes mac s'

gateway_hop-some :
    (arrivals : Arrivals) (inside : Bool) (mac : List ℕ) (s : Net)
    → gateway_hop arrivals inside (some mac, s) ≡ arp_get_mac arrivals s.driver.gateway 100 s
unfolding gateway_hop
gateway_hop-some arrivals inside mac s = refl

pub next_hop-neighbour :
    (arrivals arrivals' : Arrivals) (destination_ip : Ip) (s : Net) (mac gateway_mac : List ℕ)
    → is_broadcast destination_ip ≡ false
    → ipv4_is_cidr_subnet destination_ip s.driver.ip s.driver.netmask ≡ true
    → arp_lookup s destination_ip ≡ some mac
    → arp_lookup s s.driver.gateway ≡ some gateway_mac
    → next_hop arrivals arrivals' destination_ip s ≡ (some gateway_mac, s)
unfolding next_hop
next_hop-neighbour arrivals arrivals' destination_ip s mac gateway_mac single inside known gateway =
    let first = arp_get_mac_known arrivals destination_ip 100 s mac known in
    let second = arp_get_mac_known arrivals' s.driver.gateway 100 s gateway_mac gateway in
    rw (next_hop, single, inside)
      (ap (gateway_hop arrivals' true) first ∙ gateway_hop-some arrivals' true mac s ∙ second)

-- A packet for a machine in the subnet, whose MAC address the table has, goes to the gateway, whose
-- MAC address the table has too, in place of that machine.
pub ipv4_send_packet-neighbour :
    (arrivals arrivals' : Arrivals) (source_ip destination_ip : Ip) (protocol : ℕ) (bytes : List ℕ)
    (s : Net) (mac gateway_mac : List ℕ)
    → is_broadcast destination_ip ≡ false
    → ipv4_is_cidr_subnet destination_ip s.driver.ip s.driver.netmask ≡ true
    → arp_lookup s destination_ip ≡ some mac
    → arp_lookup s s.driver.gateway ≡ some gateway_mac
    → (frame : Frame) × (frame.destination_mac ≡ gateway_mac)
      × (ipv4_send_packet arrivals arrivals' source_ip destination_ip protocol bytes s
          ≡ (true, sent_frame frame s))
ipv4_send_packet-neighbour arrivals arrivals' source_ip destination_ip protocol bytes s mac
      gateway_mac single inside known gateway =
    (
      frame_of gateway_mac ethertype_ipv4
          (ipv4 (ipv4_header source_ip destination_ip protocol (length bytes)) bytes)
          (20 + length bytes) s,
      refl,
      ipv4_send_packet-hop arrivals arrivals' source_ip destination_ip protocol bytes s s
          gateway_mac
          (next_hop-neighbour arrivals arrivals' destination_ip s mac gateway_mac single inside
            known gateway),
    )
