-- ===== src/Net/Arp/Protocol.antt =====
-- kernel/modules/net/arp.c: a request and its reply.
use dos.Prelude.{[], ap, arith, none, refl, replicate, some, ◌++◌, ◌<◌, ◌∙◌, ◌∷◌, ◌≡◌}
use dos.Inet.{ntohs}
use dos.Inet.Laws.{ntohs-htons}
use dos.Net.{Ip, ArpPacket, Net, Frame, arp, frame_of, ethertype_arp, ethernet_send_packet}
use dos.Net.Arp.{
  arp_packet, arp_list_len, arp_lookup, arp_send_request, arp_send_reply, arp_process_request,
  arp_process_reply, arp_receive_packet,
}
use dos.Net.Arp.Table.{same_ip_refl, arp_lookup-reply}
use dos.Net.Ipv4.{Protocols, ethernet_process_packet}

arp_receive_request :
    (packet : ArpPacket) (s : Net)
    → ntohs packet.opcode ≡ 1
    → packet.target_ip ≡ s.driver.ip
    → arp_receive_packet packet s ≡ arp_send_reply packet.sender_ip packet.sender_mac s
unfolding arp_receive_packet arp_process_request
arp_receive_request packet s opcode target = rw (opcode, target, same_ip_refl s.driver.ip) refl

pub arp_receive_reply :
    (packet : ArpPacket) (s : Net)
    → ntohs packet.opcode ≡ 2
    → arp_receive_packet packet s ≡ arp_process_reply packet s
unfolding arp_receive_packet
arp_receive_reply packet s opcode = rw opcode refl

pub asked_lookup : (ip : Ip) (s : Net) → arp_lookup (arp_send_request ip s) ip ≡ arp_lookup s ip
unfolding arp_send_request arp_lookup
asked_lookup ip s = refl

-- A frame with an ARP packet comes in.
process_arp :
    (protocols : Protocols) (frame : Frame) (packet : ArpPacket) (s : Net)
    → ntohs frame.ethertype ≡ ethertype_arp
    → frame.payload ≡ arp packet
    → ethernet_process_packet protocols frame s ≡ arp_receive_packet packet s
unfolding ethernet_process_packet
process_arp protocols frame packet s type carries = rw (carries, type) refl

-- A machine `a` that does not know the address of `b` sends a request. `b` answers to `a` alone, and
-- when `a`, whose table of ten entries has one left, gets the answer it finds the MAC address of `b` in its table.
pub arp_request-reply :
    (protocols : Protocols) (a b : Net)
    → a.curr_arp < arp_list_len
    → arp_lookup a b.driver.ip ≡ none
    → (request : Frame) × (reply : Frame) × ((arp_send_request b.driver.ip a).sent
        ≡ a.sent ++ request ∷ [])
      × ((ethernet_process_packet protocols request b).sent ≡ b.sent ++ reply ∷ [])
      × (reply.destination_mac ≡ a.driver.mac)
      × (arp_lookup
            (ethernet_process_packet protocols reply (arp_send_request b.driver.ip a))
            b.driver.ip
          ≡ some b.driver.mac)
unfolding arp_send_request arp_send_reply ethernet_send_packet
arp_request-reply protocols a b room unknown =
    let ask = arp_packet 1 (replicate 6 0) b.driver.ip a in
    let answer = arp_packet 2 a.driver.mac a.driver.ip b in
    let request = frame_of (replicate 6 0xFF) ethertype_arp (arp ask) 28 a in
    let reply = frame_of a.driver.mac ethertype_arp (arp answer) 28 b in
    let type = ntohs-htons ethertype_arp (omega arith) in
    let asked = arp_send_request b.driver.ip a in
    (
      request,
      reply,
      refl,
      ap (λ (t : Net). t.sent)
          (process_arp protocols request ask b type refl
            ∙ arp_receive_request ask b (ntohs-htons 1 (omega arith)) refl),
      refl,
      ap (λ t. arp_lookup t b.driver.ip)
            (process_arp protocols reply answer asked type refl
              ∙ arp_receive_reply answer asked (ntohs-htons 2 (omega arith)))
          ∙ arp_lookup-reply answer asked (omega (arith, room))
              (asked_lookup b.driver.ip a ∙ unknown),
    )
