-- ===== src/Net/Arp/Table.antt =====
-- The table of kernel/modules/net/arp.c: what a reply puts there and what a lookup finds.
use dos.Prelude.{
  Bool-cases, ap, arith, false, if◌then◌else◌, inl, inr, ltb, none, refl, some, subst, suc, true,
  zero, ℕ, ℕ_discrete, ◌+◌, ◌<◌, ◌==◌, ◌∙◌, ◌≡◌, ◌≤◌, ◌⊎◌,
}
use mathlib.Core.Option.{some-ne-none}
use dos.Net.{Ip, same_ip, ArpPacket, ArpMap, Net}
use dos.Net.Arp.{arp_list_size, arp_list_len, find_mac, arp_lookup, arp_process_reply}

pub same_ip_refl : (ip : Ip) → same_ip ip ip ≡ true
unfolding same_ip
same_ip_refl ip = ground arith

-- What the lookup finds is the first entry for the address.
pub find_mac_lem :
    (arp_list : ℕ → ArpMap) (ip : Ip) (left i : ℕ)
    → ((find_mac arp_list ip left i ≡ none)
        × ((j : ℕ) → i ≤ j → j < i + left → same_ip (arp_list j).ip ip ≡ false))
      ⊎ ((k : ℕ) × (i ≤ k)
          × (k < i + left)
          × (find_mac arp_list ip left i ≡ some (arp_list k).mac)
          × (same_ip (arp_list k).ip ip ≡ true)
          × ((j : ℕ) → i ≤ j → j < k → same_ip (arp_list j).ip ip ≡ false))
unfolding find_mac
find_mac_lem arp_list ip zero i = inl (refl, λ j low high. absurd (omega arith))
find_mac_lem arp_list ip (suc left) i = elim (Bool-cases (same_ip (arp_list i).ip ip)) [
  | inl here ↦ inr (
    i,
    omega arith,
    omega arith,
    rw here refl,
    here,
    λ j low high. absurd (omega (arith, low, high)),
  )
  | inr elsewhere ↦
      let first : (j : ℕ) → j ≡ i → same_ip (arp_list j).ip ip ≡ false = λ j e. rw e elsewhere in
      elim (find_mac_lem arp_list ip left (i + 1)) [
        | inl (missing, others) ↦ inl (
          rw elsewhere missing,
          λ j low high. elim (ℕ_discrete j i) [
            | yes e ↦ first j e
            | no ne ↦ others j (omega arith) (omega arith)
          ],
        )
        | inr (k, low, high, found, same, others) ↦ inr (
          k,
          omega arith,
          omega arith,
          rw elsewhere found,
          same,
          λ j from below. elim (ℕ_discrete j i) [
            | yes e ↦ first j e
            | no ne ↦ others j (omega arith) below
          ],
        )
      ]
]

find_mac-append :
    (f g : ℕ → ArpMap) (ip : Ip) (left i : ℕ)
    → ((j : ℕ) → j < i + left → g j ≡ f j)
    → find_mac f ip left i ≡ none
    → same_ip (g (i + left)).ip ip ≡ true
    → find_mac g ip (suc left) i ≡ some (g (i + left)).mac
unfolding find_mac
find_mac-append f g ip zero i kept unknown found =
    let last : i + 0 ≡ i = omega arith in
    rw (subst (λ n. same_ip (g n).ip ip ≡ true) last found, last) refl
find_mac-append f g ip (suc left) i kept unknown found = elim (Bool-cases (same_ip (f i).ip ip)) [
  | inl here ↦ absurd (
      some-ne-none (f i).mac (
        subst (λ b. (if b then some (f i).mac else find_mac f ip left (i + 1)) ≡ none) here
          unknown))
  | inr elsewhere ↦
      let last : i + suc left ≡ i + 1 + left = omega arith in
      let other : same_ip (g i).ip ip ≡ false = rw (kept i (omega arith)) elsewhere in
      let rest : find_mac f ip left (i + 1) ≡ none =
        subst (λ b. (if b then some (f i).mac else find_mac f ip left (i + 1)) ≡ none) elsewhere
          unknown in
      rw (other, last)
        (find_mac-append f g ip left (i + 1) (λ j below. kept j (omega (arith, below))) rest
          (subst (λ n. same_ip (g n).ip ip ≡ true) last found))
]

-- The table with the sender of a reply behind the others.
abbrev pub entry_of : ArpPacket → ArpMap
entry_of packet = record { ip = packet.sender_ip; mac = packet.sender_mac }

abbrev pub with_entry : ArpPacket → Net → ℕ → ArpMap
with_entry packet s i = if i == s.curr_arp then entry_of packet else s.arp_list i

pub with_entry_last :
    (packet : ArpPacket) (s : Net) → with_entry packet s s.curr_arp ≡ entry_of packet
with_entry_last packet s = ground arith

pub with_entry_kept :
    (packet : ArpPacket) (s : Net) (i : ℕ) → i < s.curr_arp → with_entry packet s i ≡ s.arp_list i
with_entry_kept packet s i below = ground (arith, below)

pub arp_process_reply_lem :
    (packet : ArpPacket) (s : Net)
    → s.curr_arp < arp_list_len
    → arp_process_reply packet s
      ≡ record s { arp_list = with_entry packet s; curr_arp = s.curr_arp + 1 }
unfolding arp_process_reply
arp_process_reply_lem packet s room =
    let guard : ltb s.curr_arp arp_list_size ≡ true = ground (arith, room) in
    let inside : ltb s.curr_arp arp_list_len ≡ true = ground (arith, room) in
    rw (guard, inside) refl

pub arp_lookup-reply :
    (packet : ArpPacket) (s : Net)
    → s.curr_arp < arp_list_len
    → arp_lookup s packet.sender_ip ≡ none
    → arp_lookup (arp_process_reply packet s) packet.sender_ip ≡ some packet.sender_mac
unfolding arp_lookup
arp_lookup-reply packet s room unknown =
    let more : s.curr_arp + 1 ≡ suc s.curr_arp = omega arith in
    let last : with_entry packet s (0 + s.curr_arp) ≡ entry_of packet =
      ap (with_entry packet s) (omega arith) ∙ with_entry_last packet s in
    let found : same_ip (with_entry packet s (0 + s.curr_arp)).ip packet.sender_ip ≡ true =
      ap (λ (m : ArpMap). same_ip m.ip packet.sender_ip) last ∙ same_ip_refl packet.sender_ip in
    ap (λ (t : Net). find_mac t.arp_list packet.sender_ip t.curr_arp 0)
      (arp_process_reply_lem packet s room)
    ∙ ap (λ n. find_mac (with_entry packet s) packet.sender_ip n 0) more
    ∙ find_mac-append s.arp_list (with_entry packet s) packet.sender_ip s.curr_arp 0
        (λ j below. with_entry_kept packet s j (omega (arith, below))) unknown found
    ∙ ap (λ (m : ArpMap). some m.mac) last
