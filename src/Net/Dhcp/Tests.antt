-- ===== src/Net/Dhcp/Tests.antt =====
-- An acknowledgement of kernel/modules/net/dhcp.c with a netmask and a router.
use dos.Prelude.{List, [], arith, get_or, length, refl, some, ℕ, ◌∷◌, ◌≡◌, ◌≤◌}
use dos.Net.Tests.{machine, address}
use dos.Net.{EthernetDriver}
use dos.Net.Dhcp.{DhcpPacket, Dhcp, dhcp_udp_listener}
use dos.Net.Dhcp.Options.{dhcp_udp_listener-ends}
use dos.Net.Dhcp.Ack.{DhcpOption, Stands, Configured, dhcp_udp_listener-ack}

abbrev bytes : List ℕ
bytes = 53 ∷ 1 ∷ 5 ∷ 1 ∷ 4 ∷ 255 ∷ 255 ∷ 255 ∷ 0 ∷ 3 ∷ 4 ∷ 192 ∷ 168 ∷ 0 ∷ 254 ∷ 255 ∷ []

abbrev packet : DhcpPacket
packet = record {
  op = 2;
  yiaddr = address 7;
  siaddr = address 1;
  giaddr = address 0;
  options = λ i. get_or bytes i 0;
}

abbrev idle : Dhcp
idle = record { net = machine 1; offers = [] }

-- The option of the message type has one byte, and what stands behind it is read with it.
abbrev message : DhcpOption
message = record { code = 53; size = 1; body = record { ip0 = 5; ip1 = 1; ip2 = 4; ip3 = 255 } }

abbrev options : List DhcpOption
options =
    record { code = 1; size = 4; body = record { ip0 = 255; ip1 = 255; ip2 = 255; ip3 = 0 } }
    ∷ record { code = 3; size = 4; body = address 254 }
    ∷ []

stands : Stands packet.options 0 (message ∷ options)
stands = (
  refl,
  λ e. absurd (omega (arith, e)),
  omega arith,
  refl,
  refl,
  (
    refl,
    λ e. absurd (omega (arith, e)),
    omega arith,
    refl,
    refl,
    (refl, λ e. absurd (omega (arith, e)), omega arith, refl, refl, refl),
  ),
)

listener-ack_example :
    (driver : EthernetDriver) × Configured options
      (record (machine 1).driver { ip = address 7; gateway = address 0 })
      driver
    × (dhcp_udp_listener packet idle
        ≡ some (record idle { net = record (machine 1) { driver = driver } }))
listener-ack_example = dhcp_udp_listener-ack packet idle message options refl refl refl stands

listener-ends_example :
    (s' : Dhcp) × (dhcp_udp_listener packet idle ≡ some s') × (length s'.offers ≤ 2)
listener-ends_example = dhcp_udp_listener-ends packet idle (omega arith)
