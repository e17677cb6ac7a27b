-- ===== src/Net/Dhcp.antt =====
-- kernel/modules/net/dhcp.c: what comes from a server. The options are the bytes of the memory from
-- `packet->options` on; those from 312 on lie behind the array.
pub mod Options
pub mod Ack
mod Tests
use dos.Prelude.{
  List, Option, [], if◌then◌else◌, leb, length, none, not, some, suc, zero, ℕ, ◌&&◌, ◌*◌, ◌++◌, ◌+◌,
  ◌==◌, ◌>>=◌, ◌^◌, ◌∷◌,
}
use dos.Net.{Ip, EthernetDriver, Net}

pub record DhcpPacket : Type 0 where
  pub op : ℕ
  pub yiaddr : Ip
  pub siaddr : Ip
  pub giaddr : Ip
  pub options : ℕ → ℕ

pub record DhcpOffer : Type 0 where
  pub server_ip : Ip
  pub offered_ip : Ip

-- The machine, and `offers` up to `offer_count`.
pub record Dhcp : Type 0 where
  pub net : Net
  pub offers : List DhcpOffer

abbrev pub option_end : ℕ
option_end = 255

-- `op - packet->options >= 312`
abbrev pub options_size : ℕ
options_size = 312

unfoldable pub dhcp_process_offer : DhcpPacket → Dhcp → Dhcp
dhcp_process_offer packet s = if leb 2 (length s.offers) then s else record s {
  offers = s.offers ++ record { server_ip = packet.siaddr; offered_ip = packet.yiaddr } ∷ [];
}

-- `op[2]` to `op[5]`.
abbrev pub option_ip : (ℕ → ℕ) → ℕ → Ip
option_ip options op = record {
  ip0 = options (op + 2);
  ip1 = options (op + 3);
  ip2 = options (op + 4);
  ip3 = options (op + 5);
}

-- `op[2] << 24 | op[3] << 16 | op[4] << 8 | op[5]` of bytes, as the bits of the `int`.
abbrev pub option_long : Ip → ℕ
option_long b = b.ip0 * 2 ^ 24 + b.ip1 * 2 ^ 16 + b.ip2 * 2 ^ 8 + b.ip3

-- The `switch` of `dhcp_process_ack`.
unfoldable pub ack_option : ℕ → Ip → EthernetDriver → EthernetDriver
ack_option code ip driver =
    if code == 1
    then record driver { netmask = ip }
    else if code == 3
    then record driver { gateway = ip }
    else if code == 6
    then record driver { dns = ip }
    else if code == 51
    then record driver { lease_time = option_long ip }
    else driver

-- The loop of `dhcp_process_ack` from `op` on. No result is that the fuel has run out.
unfoldable pub ack_options : ℕ → (ℕ → ℕ) → ℕ → EthernetDriver → Option EthernetDriver
unfolding ack_option
ack_options zero options op driver = none
ack_options (suc fuel) options op driver =
    let rest =
      ack_options fuel options (op + (options (op + 1) + 2))
        (ack_option (options op) (option_ip options op) driver) in
    if options op == option_end
    then some driver
    else if leb options_size op
    then some driver
    else rest

-- An option takes two bytes at least.
abbrev pub options_fuel : ℕ
options_fuel = 157

unfoldable pub dhcp_process_ack : DhcpPacket → Dhcp → Option Dhcp
dhcp_process_ack packet s =
    let driver = record s.net.driver { ip = packet.yiaddr; gateway = packet.giaddr } in
    ack_options options_fuel packet.options 0 driver >>= λ driver'.
    some (record s { net = record s.net { driver = driver' } })

-- The loop of `dhcp_udp_listener` from `op` on.
unfoldable pub listen_options : ℕ → DhcpPacket → ℕ → Dhcp → Option Dhcp
listen_options zero packet op s = none
listen_options (suc fuel) packet op s =
    let rest = listen_options fuel packet (op + (packet.options (op + 1) + 2)) s in
    if packet.options op == option_end
    then some s
    else if leb options_size op
    then some s
    else if packet.options op == 53 && packet.options (op + 2) == 2
    then some (dhcp_process_offer packet s)
    else if packet.options op == 53 && packet.options (op + 2) == 5
    then dhcp_process_ack packet s
    else rest

unfoldable pub dhcp_udp_listener : DhcpPacket → Dhcp → Option Dhcp
dhcp_udp_listener packet s =
    let rest = listen_options options_fuel packet 0 s in
    if not (packet.op == 2) then some s else rest
