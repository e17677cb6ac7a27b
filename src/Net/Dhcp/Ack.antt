-- ===== src/Net/Dhcp/Ack.antt =====
-- An acknowledgement of kernel/modules/net/dhcp.c with a list of options.
use dos.Prelude.{
  List, [], ap, ap₂, arith, false, inl, inr, leb, refl, some, subst, suc, true, zero, ℕ, ℕ_discrete,
  ◌&&◌, ◌*◌, ◌+◌, ◌<◌, ◌==◌, ◌∙◌, ◌∷◌, ◌≡◌, ◌≢◌, ◌≤◌, ◌⊎◌,
}
use dos.Net.{Ip, EthernetDriver}
use dos.Net.Dhcp.{
  DhcpPacket, Dhcp, option_end, options_size, option_ip, option_long, ack_option, ack_options,
  dhcp_process_ack, listen_options, dhcp_udp_listener,
}
use dos.Net.Dhcp.Options.{ack_stop, ack_more}

-- An option as it stands in the packet, with the four bytes that the code reads behind its size.
pub record DhcpOption : Type 0 where
  pub code : ℕ
  pub size : ℕ
  pub body : Ip

-- From `op` on the memory has these options and then the end.
abbrev pub Stands : (ℕ → ℕ) → ℕ → List DhcpOption → Type 0
Stands options op [] = options op ≡ option_end
Stands options op (o ∷ opts) =
    (options op ≡ o.code)
    × (o.code ≢ option_end)
    × (op < options_size)
    × (options (op + 1) ≡ o.size)
    × (option_ip options op ≡ o.body)
    × Stands options (op + (o.size + 2)) opts

-- What the options of RFC 2132 that the machine takes over mean.
pub data Setting : Type 0 where
  subnet_mask : Ip → Setting
  router : Ip → Setting
  domain_name_server : Ip → Setting
  ip_address_lease_time : ℕ → Setting

-- The codes of RFC 2132, and the seconds of the lease, whose high byte comes first.
pub data Means : DhcpOption → Setting → Type 0 where
  code_1 : {o : DhcpOption} → o.code ≡ 1 → Means o (subnet_mask o.body)
  code_3 : {o : DhcpOption} → o.code ≡ 3 → Means o (router o.body)
  code_6 : {o : DhcpOption} → o.code ≡ 6 → Means o (domain_name_server o.body)
  code_51 :
      {o : DhcpOption}
      → o.code ≡ 51
      → Means o (
          ip_address_lease_time
            (((o.body.ip0 * 256 + o.body.ip1) * 256 + o.body.ip2) * 256 + o.body.ip3))

abbrev pub apply_setting : Setting → EthernetDriver → EthernetDriver
apply_setting (subnet_mask ip) driver = record driver { netmask = ip }
apply_setting (router ip) driver = record driver { gateway = ip }
apply_setting (domain_name_server ip) driver = record driver { dns = ip }
apply_setting (ip_address_lease_time seconds) driver = record driver { lease_time = seconds }

-- What the options do to a machine, one after the other; options with other codes do nothing.
pub data Configured : List DhcpOption → EthernetDriver → EthernetDriver → Type 0 where
  done : {driver : EthernetDriver} → Configured [] driver driver
  setting :
      {o : DhcpOption} {opts : List DhcpOption} {driver driver' : EthernetDriver} (what : Setting)
      → Means o what
      → Configured opts (apply_setting what driver) driver'
      → Configured (o ∷ opts) driver driver'
  ignored :
      {o : DhcpOption} {opts : List DhcpOption} {driver driver' : EthernetDriver}
      → o.code ≢ 1
      → o.code ≢ 3
      → o.code ≢ 6
      → o.code ≢ 51
      → Configured opts driver driver'
      → Configured (o ∷ opts) driver driver'

-- The options applied one after the other.
abbrev configure : List DhcpOption → EthernetDriver → EthernetDriver
configure [] driver = driver
configure (o ∷ opts) driver = configure opts (ack_option o.code o.body driver)

-- What `ack_option` does by the code of an option.
ack_option_cases :
    (o : DhcpOption) (driver : EthernetDriver)
    → ((what : Setting) × Means o what
        × (ack_option o.code o.body driver ≡ apply_setting what driver))
      ⊎ ((o.code ≢ 1)
          × (o.code ≢ 3)
          × (o.code ≢ 6)
          × (o.code ≢ 51)
          × (ack_option o.code o.body driver ≡ driver))
unfolding ack_option
ack_option_cases o driver = elim (ℕ_discrete o.code 1) [
  | yes e ↦ inl (subnet_mask o.body, code_1 e, rw e refl)
  | no not_1 ↦ elim (ℕ_discrete o.code 3) [
    | yes e ↦ inl (router o.body, code_3 e, rw e refl)
    | no not_3 ↦ elim (ℕ_discrete o.code 6) [
      | yes e ↦ inl (domain_name_server o.body, code_6 e, rw e refl)
      | no not_6 ↦ elim (ℕ_discrete o.code 51) [
        | yes e ↦
            let b = o.body in
            let seconds : option_long b ≡ ((b.ip0 * 256 + b.ip1) * 256 + b.ip2) * 256 + b.ip3 =
              omega arith in
            inl (
              ip_address_lease_time (((b.ip0 * 256 + b.ip1) * 256 + b.ip2) * 256 + b.ip3),
              code_51 e,
              rw e (ap (λ n. record driver { lease_time = n }) seconds),
            )
        | no not_51 ↦
            let no_1 : (o.code == 1) ≡ false = ground (arith, not_1) in
            let no_3 : (o.code == 3) ≡ false = ground (arith, not_3) in
            let no_6 : (o.code == 6) ≡ false = ground (arith, not_6) in
            let no_51 : (o.code == 51) ≡ false = ground (arith, not_51) in
            inr (not_1, not_3, not_6, not_51, rw (no_1, no_3, no_6, no_51) refl)
      ]
    ]
  ]
]

configure-Configured :
    (opts : List DhcpOption) (driver : EthernetDriver)
    → Configured opts driver (configure opts driver)
configure-Configured [] driver = done
configure-Configured (o ∷ opts) driver = elim (ack_option_cases o driver) [
  | inl (what, means, same) ↦ setting what means (
      subst (λ d. Configured opts d (configure opts (ack_option o.code o.body driver))) same
        (configure-Configured opts (ack_option o.code o.body driver)))
  | inr (not_1, not_3, not_6, not_51, same) ↦ ignored not_1 not_3 not_6 not_51 (
      subst (λ d. Configured opts d (configure opts (ack_option o.code o.body driver))) same
        (configure-Configured opts (ack_option o.code o.body driver)))
]

ack_options-Stands :
    (fuel : ℕ) (options : ℕ → ℕ) (op : ℕ) (opts : List DhcpOption) (driver : EthernetDriver)
    → options_size ≤ op + 2 * fuel
    → Stands options op opts
    → ack_options (suc fuel) options op driver ≡ some (configure opts driver)
ack_options-Stands fuel options op [] driver enough last =
    ack_stop fuel options op driver (inl (ground (arith, last)))
ack_options-Stands zero options op (o ∷ opts) driver enough
      (code, other, inside, size, body, rest) =
    absurd (omega (arith, enough, inside))
ack_options-Stands (suc fuel) options op (o ∷ opts) driver enough
      (code, other, inside, size, body, rest) =
    let more : (options op == option_end) ≡ false = ground (arith, code, other) in
    let within : leb options_size op ≡ false = ground (arith, inside) in
    let next : op + (options (op + 1) + 2) ≡ op + (o.size + 2) = omega (arith, size) in
    ack_more (suc fuel) options op driver more within
    ∙ ap
        (λ n.
          ack_options (suc fuel) options n (ack_option (options op) (option_ip options op) driver))
        next
    ∙ ap₂ (λ c b. ack_options (suc fuel) options (op + (o.size + 2)) (ack_option c b driver)) code
        body
    ∙ ack_options-Stands fuel options (op + (o.size + 2)) opts (ack_option o.code o.body driver)
        (omega (arith, enough)) rest

ack-Stands :
    (packet : DhcpPacket) (s : Dhcp) (opts : List DhcpOption)
    → Stands packet.options 0 opts
    → dhcp_process_ack packet s
      ≡ some (record s {
        net = record s.net {
          driver =
              configure opts (record s.net.driver { ip = packet.yiaddr; gateway = packet.giaddr });
        };
      })
unfolding dhcp_process_ack
ack-Stands packet s opts stands =
    let driver : EthernetDriver = record s.net.driver {
      ip = packet.yiaddr;
      gateway = packet.giaddr;
    } in
    let e = ack_options-Stands 156 packet.options 0 opts driver (omega arith) stands in rw e refl

ack_option_type :
    (code : ℕ) (ip : Ip) (driver : EthernetDriver) → code ≡ 53 → ack_option code ip driver ≡ driver
unfolding ack_option
ack_option_type code ip driver e = rw e refl

listen_ack :
    (fuel : ℕ) (packet : DhcpPacket) (s : Dhcp)
    → packet.options 0 ≡ 53
    → packet.options 2 ≡ 5
    → listen_options (suc fuel) packet 0 s ≡ dhcp_process_ack packet s
unfolding listen_options
listen_ack fuel packet s type ack =
    let more : (packet.options 0 == option_end) ≡ false = ground (arith, type) in
    let no_offer : (packet.options 0 == 53 && packet.options 2 == 2) ≡ false =
      ground (arith, type, ack) in
    let is_ack : (packet.options 0 == 53 && packet.options 2 == 5) ≡ true =
      ground (arith, type, ack) in
    rw (listen_options, more, no_offer, is_ack) refl

-- When a reply has a list of options and then the end, the first option being its message type with
-- the value for an acknowledgement, `dhcp_udp_listener` gives the machine the address and the
-- gateway of the packet and then what the options of RFC 2132 for the netmask, the router, the name
-- server and the time of the lease say, each in its turn; it ignores the others.
pub dhcp_udp_listener-ack :
    (packet : DhcpPacket) (s : Dhcp) (o : DhcpOption) (opts : List DhcpOption)
    → packet.op ≡ 2
    → o.code ≡ 53
    → o.body.ip0 ≡ 5
    → Stands packet.options 0 (o ∷ opts)
    → (driver : EthernetDriver) × Configured opts
        (record s.net.driver { ip = packet.yiaddr; gateway = packet.giaddr })
        driver
      × (dhcp_udp_listener packet s ≡ some (record s { net = record s.net { driver = driver } }))
unfolding dhcp_udp_listener
dhcp_udp_listener-ack packet s o opts reply type ack stands =
    let driver : EthernetDriver = record s.net.driver {
      ip = packet.yiaddr;
      gateway = packet.giaddr;
    } in
    let is_reply : (packet.op == 2) ≡ true = ground (arith, reply) in
    let (first, other, inside, size, body, rest) = stands in
    let second : packet.options 2 ≡ 5 = ap (λ (b : Ip). b.ip0) body ∙ ack in
    (
      configure opts driver,
      configure-Configured opts driver,
      rw (dhcp_udp_listener, is_reply)
          (listen_ack 156 packet s (first ∙ type) second
            ∙ ack-Stands packet s (o ∷ opts) stands
            ∙ ap (λ d. some (record s { net = record s.net { driver = configure opts d } }))
                (ack_option_type o.code o.body driver type)),
    )
