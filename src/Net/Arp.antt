-- ===== src/Net/Arp.antt =====
-- kernel/net/arp.c: the messages that ask for the hardware address of an IPv4 address.
use utamo_os.Common.{
  ℕ, ◌+◌, ◌*◌, ◌/◌, ◌%◌, ◌^◌, ◌≤◌, ◌<◌, ◌≡◌, ◌⊎◌, refl, sym, ap, ◌∙◌, true, not, ◌&&◌, ◌||◌, Option,
  none, some, List, [], ◌∷◌, ◌++◌, get_or, set, length, take, drop, ltb, ◌==◌, if◌then◌else◌, arith,
}
use mathlib.Core.Path.{subst}
use utamo_os.Net.Packet.{
  net_get16, net_get32, net_put16, net_put32, copy_to, opened, six, take-exact, be16, be32,
  get_be32,
}
use utamo_os.Net.Ethernet.{net_mac_unicast}
use utamo_os.Net.Ipv4.{net_ip_unicast}

pub record ArpPacket : Type 0 where
  pub operation : ℕ
  pub sender_mac : List ℕ
  pub target_mac : List ℕ
  pub sender_ip : ℕ
  pub target_ip : ℕ

unfoldable pub arp_decode : List ℕ → Option ArpPacket
arp_decode p =
    let operation = net_get16 p 6 in
    let sender = net_get32 p 14 in
    let target = net_get32 p 24 in
    if ltb (length p) 28
    then none
    else if not (net_get16 p 0 == 1)
        || not (net_get16 p 2 == 0x800)
        || not (get_or p 4 0 == 6)
        || not (get_or p 5 0 == 4)
        || (not (operation == 1) && not (operation == 2))
        || not (net_mac_unicast (take 6 (drop 8 p)))
        || (not (sender == 0) && not (net_ip_unicast sender))
        || not (net_ip_unicast target)
    then none
    else some (record {
      operation = operation;
      sender_mac = take 6 (drop 8 p);
      target_mac = take 6 (drop 18 p);
      sender_ip = sender;
      target_ip = target;
    })

-- The stores of `arp_build`.
abbrev pub put_arp : List ℕ → ArpPacket → List ℕ
put_arp out packet =
    let typed = set (set (net_put16 (net_put16 out 0 1) 2 0x800) 4 6) 5 4 in
    let asked = copy_to (net_put16 typed 6 packet.operation) 8 packet.sender_mac in
    let sent = copy_to (net_put32 asked 14 packet.sender_ip) 18 packet.target_mac in
    net_put32 sent 24 packet.target_ip

unfoldable pub arp_build : List ℕ → ArpPacket → Option (List ℕ)
arp_build out packet =
    if ltb (length out) 28
      || (not (packet.operation == 1) && not (packet.operation == 2))
      || not (net_mac_unicast packet.sender_mac)
      || (not (packet.sender_ip == 0) && not (net_ip_unicast packet.sender_ip))
      || not (net_ip_unicast packet.target_ip)
    then none
    else some (put_arp out packet)

-- The 28 bytes of a message, from its operation, its addresses.
abbrev pub message_of : ArpPacket → List ℕ
message_of packet =
    0 ∷ 1 ∷ 8 ∷ 0 ∷ 6 ∷ 4 ∷ be16 packet.operation
    ++ packet.sender_mac
    ++ be32 packet.sender_ip
    ++ packet.target_mac
    ++ be32 packet.target_ip

-- The condition that both ends check
abbrev pub IsSound : ArpPacket → Type 0
IsSound packet =
    ((packet.operation ≡ 1) ⊎ (packet.operation ≡ 2))
    × (net_mac_unicast packet.sender_mac ≡ true)
    × ((packet.sender_ip ≡ 0) ⊎ (net_ip_unicast packet.sender_ip ≡ true))
    × (net_ip_unicast packet.target_ip ≡ true)

-- The message is built, and decoded from the 28 bytes and whatever follows them.
abbrev pub Arrives : List ℕ → List ℕ → ArpPacket → Type 0
Arrives out padding packet =
    (buffer : List ℕ) × ((arp_build out packet ≡ some buffer)
      × (arp_decode (take 28 buffer ++ padding) ≡ some packet))

module _ (out : List ℕ) (operation : ℕ) (a b c d e f g h i j k l : ℕ) (sender target : ℕ) where
  abbrev packet : ArpPacket
  packet = record {
    operation = operation;
    sender_mac = a ∷ b ∷ c ∷ d ∷ e ∷ f ∷ [];
    target_mac = g ∷ h ∷ i ∷ j ∷ k ∷ l ∷ [];
    sender_ip = sender;
    target_ip = target;
  }

  put_arp_lem : 28 ≤ length out → put_arp out packet ≡ message_of packet ++ drop 28 out
  put_arp_lem room = let (front, opening) = opened 28 out room in ap (λ o. put_arp o packet) opening

  arp_build_opened :
      IsSound packet
      → 28 ≤ length out
      → arp_build out packet ≡ some (message_of packet ++ drop 28 out)
  unfolding arp_build
  arp_build_opened (known, unicast, from, to) room =
      rw (put_arp_lem room) (rw unicast (rw to (ground arith)))

  arp_decode_opened :
      (padding : List ℕ)
      → IsSound packet
      → sender < 2 ^ 32
      → target < 2 ^ 32
      → arp_decode (message_of packet ++ padding) ≡ some packet
  unfolding arp_decode
  arp_decode_opened padding (known, unicast, from, to) hs ht =
      let sent = get_be32 sender hs in
      let asked = get_be32 target ht in
      let word : operation / 256 % 256 * 256 + operation % 256 ≡ operation = omega arith in
      rw sent (rw asked (rw word (rw unicast (rw to (ground arith)))))

  opened-Arrives :
      (padding : List ℕ)
      → 28 ≤ length out
      → sender < 2 ^ 32
      → target < 2 ^ 32
      → IsSound packet
      → Arrives out padding packet
  opened-Arrives padding room hs ht sound =
      let kept : take 28 (message_of packet ++ drop 28 out) ≡ message_of packet =
        take-exact 28 (message_of packet) (drop 28 out) refl in
      (
        message_of packet ++ drop 28 out,
        (
          arp_build_opened sound room,
          ap (λ p. arp_decode (p ++ padding)) kept ∙ arp_decode_opened padding sound hs ht,
        ),
      )

abbrev with_macs : ArpPacket → List ℕ → List ℕ → ArpPacket
with_macs packet sender_mac target_mac = record {
  operation = packet.operation;
  sender_mac = sender_mac;
  target_mac = target_mac;
  sender_ip = packet.sender_ip;
  target_ip = packet.target_ip;
}

-- A request or a reply from a unicast hardware address, whose sender has no IPv4 address or a
-- unicast one and whose target has a unicast one, is built in a buffer of at least 28 bytes, and
-- arp_decode gets the same message from these 28 bytes, whatever padding follows them.
pub arp_decode-arp_build :
    (out padding : List ℕ) (packet : ArpPacket)
    → IsSound packet
    → length packet.sender_mac ≡ 6
    → length packet.target_mac ≡ 6
    → packet.sender_ip < 2 ^ 32
    → packet.target_ip < 2 ^ 32
    → 28 ≤ length out
    → Arrives out padding packet
arp_decode-arp_build out padding packet sound hs ht ws wt room =
    let (a, b, c, d, e, f, eqs) = six packet.sender_mac hs in
    let (g, h, i, j, k, l, eqt) = six packet.target_mac ht in
    subst
      (λ s.
        IsSound (with_macs packet s packet.target_mac)
        → Arrives out padding (with_macs packet s packet.target_mac))
      (sym eqs)
      (subst
        (λ t.
          IsSound (with_macs packet (a ∷ b ∷ c ∷ d ∷ e ∷ f ∷ []) t)
          → Arrives out padding (with_macs packet (a ∷ b ∷ c ∷ d ∷ e ∷ f ∷ []) t))
        (sym eqt)
        (opened-Arrives out packet.operation a b c d e f g h i j k l packet.sender_ip
          packet.target_ip padding room ws wt))
      sound
