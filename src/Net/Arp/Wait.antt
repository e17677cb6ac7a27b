-- ===== src/Net/Arp/Wait.antt =====
-- `arp_get_mac` of kernel/modules/net/arp.c: waiting for an address.
use dos.Prelude.{
  List, Option, Option-cases, [], ap, append-nil, arith, inl, inr, none, refl, some, subst, suc,
  sym, zero, ℕ, ◌++◌, ◌+◌, ◌/◌, ◌∙◌, ◌∷◌, ◌≡◌, ◌≤◌, ◌⊎◌,
}
use mathlib.Core.Option.{some-ne-none}
use dos.Net.{Ip, ArpPacket, Net}
use dos.Net.Arp.{
  arp_lookup, arp_send_request, arp_receive_packet, receive_all, Arrivals, later, wait_mac,
  arp_get_mac,
}
use dos.Net.Arp.Protocol.{asked_lookup}

-- The packets that have come in during the first `k` waits.
abbrev pub come_in : ℕ → Arrivals → List ArpPacket
come_in zero arrivals = []
come_in (suc k) arrivals = arrivals 0 ++ come_in k (later arrivals)

receive_all-append :
    (xs ys : List ArpPacket) (s : Net)
    → receive_all (xs ++ ys) s ≡ receive_all ys (receive_all xs s)
receive_all-append [] ys s = refl
receive_all-append (x ∷ xs) ys s = receive_all-append xs ys (arp_receive_packet x s)

wait_mac_found :
    (rounds : ℕ) (arrivals : Arrivals) (ip : Ip) (s : Net) (mac : List ℕ)
    → arp_lookup (receive_all (arrivals 0) s) ip ≡ some mac
    → wait_mac (suc rounds) arrivals ip s ≡ (some mac, receive_all (arrivals 0) s)
unfolding wait_mac
wait_mac_found rounds arrivals ip s mac e = rw (wait_mac, e) refl

wait_mac_missing :
    (rounds : ℕ) (arrivals : Arrivals) (ip : Ip) (s : Net)
    → arp_lookup (receive_all (arrivals 0) s) ip ≡ none
    → wait_mac (suc rounds) arrivals ip s
      ≡ wait_mac rounds (later arrivals) ip (receive_all (arrivals 0) s)
unfolding wait_mac
wait_mac_missing rounds arrivals ip s e = rw (wait_mac, e) refl

-- The lookup in the table as it is after some waits: when the address is there, or when the time
-- is up.
abbrev pub IsAwaited : ℕ → Arrivals → Ip → Net → Option (List ℕ) × Net → Type 0
IsAwaited rounds arrivals ip s (r, s') =
    (k : ℕ) × (k ≤ rounds)
    × (s' ≡ receive_all (come_in k arrivals) s)
    × (r ≡ arp_lookup s' ip)
    × (r ≡ none → k ≡ rounds)

IsAwaited-later :
    (rounds : ℕ) (arrivals : Arrivals) (ip : Ip) (s : Net) (result : Option (List ℕ) × Net)
    → IsAwaited rounds (later arrivals) ip (receive_all (arrivals 0) s) result
    → IsAwaited (suc rounds) arrivals ip s result
IsAwaited-later rounds arrivals ip s (r, s') (k, low, state, found, last) = (
  suc k,
  omega (arith, low),
  state ∙ sym (receive_all-append (arrivals 0) (come_in k (later arrivals)) s),
  found,
  λ e. ap suc (last e),
)

wait_mac-IsAwaited :
    (rounds : ℕ) (arrivals : Arrivals) (ip : Ip) (s : Net)
    → arp_lookup s ip ≡ none
    → IsAwaited rounds arrivals ip s (wait_mac rounds arrivals ip s)
unfolding wait_mac
wait_mac-IsAwaited zero arrivals ip s unknown = (0, omega arith, refl, sym unknown, λ e. refl)
wait_mac-IsAwaited (suc rounds) arrivals ip s unknown =
    elim (Option-cases (arp_lookup (receive_all (arrivals 0) s) ip)) [
      | inr (mac, e) ↦
          subst (IsAwaited (suc rounds) arrivals ip s)
            (sym (wait_mac_found rounds arrivals ip s mac e))
            (
              1,
              omega arith,
              ap (λ l. receive_all l s) (sym (append-nil (arrivals 0))),
              sym e,
              λ none_found. absurd (some-ne-none mac none_found),
            )
      | inl e ↦
          subst (IsAwaited (suc rounds) arrivals ip s)
            (sym (wait_mac_missing rounds arrivals ip s e))
            (IsAwaited-later rounds arrivals ip s
              (wait_mac rounds (later arrivals) ip (receive_all (arrivals 0) s))
              (wait_mac-IsAwaited rounds (later arrivals) ip (receive_all (arrivals 0) s) e))
    ]

pub arp_get_mac_known :
    (arrivals : Arrivals) (ip : Ip) (timeout : ℕ) (s : Net) (mac : List ℕ)
    → arp_lookup s ip ≡ some mac
    → arp_get_mac arrivals ip timeout s ≡ (some mac, s)
unfolding arp_get_mac
arp_get_mac_known arrivals ip timeout s mac e = rw (arp_get_mac, e) refl

arp_get_mac_unknown :
    (arrivals : Arrivals) (ip : Ip) (timeout : ℕ) (s : Net)
    → arp_lookup s ip ≡ none
    → arp_get_mac arrivals ip timeout s
      ≡ wait_mac ((timeout + 9) / 10) arrivals ip (arp_send_request ip s)
unfolding arp_get_mac
arp_get_mac_unknown arrivals ip timeout s e = rw (arp_get_mac, e) refl

-- `arp_get_mac` gives a MAC address that is in the table at once and changes nothing. Otherwise it
-- sends one request and takes in what comes during some of the waits that fit into the timeout; its
-- result is what the table then has for the address, and it has nothing only when the time is up.
pub arp_get_mac_lem :
    (arrivals : Arrivals) (ip : Ip) (timeout : ℕ) (s : Net)
    → ((mac : List ℕ) × (arp_lookup s ip ≡ some mac)
        × (arp_get_mac arrivals ip timeout s ≡ (some mac, s)))
      ⊎ ((arp_lookup s ip ≡ none)
          × IsAwaited
              ((timeout + 9) / 10)
              arrivals
              ip
              (arp_send_request ip s)
              (arp_get_mac arrivals ip timeout s))
arp_get_mac_lem arrivals ip timeout s = elim (Option-cases (arp_lookup s ip)) [
  | inr (mac, e) ↦ inl (mac, e, arp_get_mac_known arrivals ip timeout s mac e)
  | inl e ↦ inr (
    e,
    subst (IsAwaited ((timeout + 9) / 10) arrivals ip (arp_send_request ip s))
        (sym (arp_get_mac_unknown arrivals ip timeout s e))
        (wait_mac-IsAwaited ((timeout + 9) / 10) arrivals ip (arp_send_request ip s)
          (asked_lookup ip s ∙ e)),
  )
]
