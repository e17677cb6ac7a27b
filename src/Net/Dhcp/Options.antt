-- ===== src/Net/Dhcp/Options.antt =====
-- The loops over the options in kernel/modules/net/dhcp.c end.
use dos.Prelude.{
  Bool-cases, Option, [], arith, false, inl, inr, leb, length, length-append, refl, some, suc, true,
  zero, ℕ, ◌&&◌, ◌*◌, ◌+◌, ◌==◌, ◌∙◌, ◌∷◌, ◌≡◌, ◌≤◌, ◌⊎◌,
}
use dos.Net.{EthernetDriver}
use dos.Net.Dhcp.{
  DhcpPacket, Dhcp, option_end, options_size, option_ip, ack_option, ack_options,
  dhcp_process_offer, dhcp_process_ack, listen_options, dhcp_udp_listener,
}

module _ (fuel : ℕ) (options : ℕ → ℕ) (op : ℕ) (driver : EthernetDriver) where
  pub ack_stop :
      ((options op == option_end) ≡ true) ⊎ (leb options_size op ≡ true)
      → ack_options (suc fuel) options op driver ≡ some driver
  unfolding ack_options
  ack_stop (inl last) = rw (ack_options, last) refl
  ack_stop (inr past) = elim (Bool-cases (options op == option_end)) [
    | inl last ↦ rw (ack_options, last) refl
    | inr more ↦ rw (ack_options, more, past) refl
  ]

  pub ack_more :
      (options op == option_end) ≡ false
      → leb options_size op ≡ false
      → ack_options (suc fuel) options op driver
        ≡ ack_options fuel options
            (op + (options (op + 1) + 2))
            (ack_option (options op) (option_ip options op) driver)
  unfolding ack_options
  ack_more more inside = rw (ack_options, more, inside) refl

ack_options_end :
    (fuel : ℕ) (options : ℕ → ℕ) (op : ℕ) (driver : EthernetDriver)
    → options_size ≤ op + 2 * fuel
    → (driver' : EthernetDriver) × (ack_options (suc fuel) options op driver ≡ some driver')
ack_options_end zero options op driver enough =
    (driver, ack_stop zero options op driver (inr (ground (arith, enough))))
ack_options_end (suc fuel) options op driver enough = elim (Bool-cases (options op == option_end)) [
  | inl last ↦ (driver, ack_stop (suc fuel) options op driver (inl last))
  | inr more ↦ elim (Bool-cases (leb options_size op)) [
    | inl past ↦ (driver, ack_stop (suc fuel) options op driver (inr past))
    | inr inside ↦
        let (driver', e) =
          ack_options_end fuel options (op + (options (op + 1) + 2))
            (ack_option (options op) (option_ip options op) driver) (omega (arith, enough)) in
        (driver', ack_more (suc fuel) options op driver more inside ∙ e)
  ]
]

-- No more than two offers are kept.
abbrev pub FewOffers : Dhcp → Type 0
FewOffers s = length s.offers ≤ 2

offer-FewOffers :
    (packet : DhcpPacket) (s : Dhcp) → FewOffers s → FewOffers (dhcp_process_offer packet s)
unfolding dhcp_process_offer
offer-FewOffers packet s few = elim (Bool-cases (leb 2 (length s.offers))) [
  | inl full ↦ rw full few
  | inr room ↦
      let total =
        length-append s.offers
          (record { server_ip = packet.siaddr; offered_ip = packet.yiaddr } ∷ []) in
      rw room (ground (arith, total, room))
]

-- A result that keeps the number of offers.
abbrev Ends : Option Dhcp → Type 0
Ends r = (s' : Dhcp) × (r ≡ some s') × FewOffers s'

ack-Ends : (packet : DhcpPacket) (s : Dhcp) → FewOffers s → Ends (dhcp_process_ack packet s)
unfolding dhcp_process_ack
ack-Ends packet s few =
    let driver : EthernetDriver = record s.net.driver {
      ip = packet.yiaddr;
      gateway = packet.giaddr;
    } in
    let (driver', e) = ack_options_end 156 packet.options 0 driver (omega arith) in
    (record s { net = record s.net { driver = driver' } }, rw e refl, few)

-- One round of the loop ends it, or moves on inside the options.
listen_round :
    (fuel : ℕ) (packet : DhcpPacket) (op : ℕ) (s : Dhcp)
    → FewOffers s
    → Ends (listen_options (suc fuel) packet op s)
      ⊎ ((leb options_size op ≡ false)
          × (listen_options (suc fuel) packet op s
              ≡ listen_options fuel packet (op + (packet.options (op + 1) + 2)) s))
unfolding listen_options
listen_round fuel packet op s few = elim (Bool-cases (packet.options op == option_end)) [
  | inl last ↦ inl (s, rw (listen_options, last) refl, few)
  | inr more ↦ elim (Bool-cases (leb options_size op)) [
    | inl past ↦ inl (s, rw (listen_options, more, past) refl, few)
    | inr inside ↦ elim (Bool-cases (packet.options op == 53 && packet.options (op + 2) == 2)) [
      | inl offer ↦ inl (
        dhcp_process_offer packet s,
        rw (listen_options, more, inside, offer) refl,
        offer-FewOffers packet s few,
      )
      | inr no_offer ↦ elim (Bool-cases (packet.options op == 53 && packet.options (op + 2) == 5)) [
        | inl ack ↦
            let (s', e, few') = ack-Ends packet s few in
            inl (s', rw (listen_options, more, inside, no_offer, ack) e, few')
        | inr no_ack ↦ inr (inside, rw (listen_options, more, inside, no_offer, no_ack) refl)
      ]
    ]
  ]
]

listen_options_end :
    (fuel : ℕ) (packet : DhcpPacket) (op : ℕ) (s : Dhcp)
    → FewOffers s
    → options_size ≤ op + 2 * fuel
    → Ends (listen_options (suc fuel) packet op s)
listen_options_end zero packet op s few enough = elim (listen_round zero packet op s few) [
  | inl ends ↦ ends
  | inr (inside, e) ↦ absurd (ground (arith, inside, enough))
]
listen_options_end (suc fuel) packet op s few enough =
    elim (listen_round (suc fuel) packet op s few) [
      | inl ends ↦ ends
      | inr (inside, e) ↦
          let (s', e', few') =
            listen_options_end fuel packet (op + (packet.options (op + 1) + 2)) s few
              (omega (arith, enough)) in
          (s', e ∙ e', few')
    ]

-- Whatever bytes a packet has, `dhcp_udp_listener` ends, and it keeps no more than two offers.
pub dhcp_udp_listener-ends :
    (packet : DhcpPacket) (s : Dhcp)
    → length s.offers ≤ 2
    → (s' : Dhcp) × (dhcp_udp_listener packet s ≡ some s') × (length s'.offers ≤ 2)
unfolding dhcp_udp_listener
dhcp_udp_listener-ends packet s few = elim (Bool-cases (packet.op == 2)) [
  | inr other ↦ (s, rw (dhcp_udp_listener, other) refl, few)
  | inl reply ↦ rw (dhcp_udp_listener, reply) (listen_options_end 156 packet 0 s few (omega arith))
]
