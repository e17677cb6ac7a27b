-- ===== src/Net/Arp/Replies.antt =====
-- The table of kernel/modules/net/arp.c under many replies.
use dos.Prelude.{List, [], ap, arith, length, refl, subst, ℕ, ◌+◌, ◌<◌, ◌∙◌, ◌∷◌, ◌≡◌, ◌≤◌}
use dos.Inet.{ntohs}
use dos.Net.{ArpPacket, ArpMap, Net}
use dos.Net.Arp.{arp_list_len, arp_receive_packet, receive_all}
use dos.Net.Arp.Table.{
  arp_process_reply_lem, entry_of, with_entry, with_entry_last, with_entry_kept,
}
use dos.Net.Arp.Protocol.{arp_receive_reply}

-- All packets are replies.
pub data AllReplies : List ArpPacket → Type 0 where
  nil : AllReplies []
  cons :
      {packet : ArpPacket} {packets : List ArpPacket}
      → ntohs packet.opcode ≡ 2
      → AllReplies packets
      → AllReplies (packet ∷ packets)

-- The sender of reply number `i` is in entry `first + i`.
abbrev pub StandsFrom : ℕ → List ArpPacket → (ℕ → ArpMap) → Type 0
StandsFrom first [] table = Unit {0}
StandsFrom first (packet ∷ packets) table =
    (table first ≡ entry_of packet) × StandsFrom (first + 1) packets table

-- Replies for which the ten entries of the table have room are written to it one behind the other,
-- whoever sends them and whether or not anyone asked, and the entries before stay.
pub receive_all-StandsFrom :
    {packets : List ArpPacket} (s : Net)
    → AllReplies packets
    → s.curr_arp + length packets ≤ arp_list_len
    → ((receive_all packets s).curr_arp ≡ s.curr_arp + length packets)
      × ((i : ℕ) → i < s.curr_arp → (receive_all packets s).arp_list i ≡ s.arp_list i)
      × StandsFrom s.curr_arp packets (receive_all packets s).arp_list
receive_all-StandsFrom s nil room = (omega arith, λ i below. refl, tt)
receive_all-StandsFrom s (cons {packet} {packets} reply rest) room =
    let step =
      arp_receive_reply packet s reply ∙ arp_process_reply_lem packet s (omega (arith, room)) in
    let s' = arp_receive_packet packet s in
    let count : s'.curr_arp ≡ s.curr_arp + 1 = ap (λ (t : Net). t.curr_arp) step in
    let table : s'.arp_list ≡ with_entry packet s = ap (λ (t : Net). t.arp_list) step in
    let (total, kept, stand) = receive_all-StandsFrom s' rest (omega (arith, room, count)) in
    (
      omega (arith, total, count),
      λ i below.
          kept i (omega (arith, below, count))
          ∙ ap (λ f. f i) table
          ∙ with_entry_kept packet s i below,
      (
        kept s.curr_arp (omega (arith, count))
            ∙ ap (λ f. f s.curr_arp) table
            ∙ with_entry_last packet s,
        subst (λ n. StandsFrom n packets (receive_all packets s').arp_list) count stand,
      ),
    )
