-- ===== src/Net/Send.antt =====
-- kernel/net/stack.c, send_udp, send_ip and send_ethernet, up to the frame that the card is to
-- transmit. The arrays on the C stack are not initialized, so their bytes are parameters.
use utamo_os.Common.{
  ℕ, ◌+◌, ◌-◌, ◌%◌, ◌^◌, ◌≤◌, ◌<◌, ◌≡◌, ◌≢◌, ◌⊎◌, refl, sym, ◌∙◌, true, ◌∷◌, ◌++◌, Option, none,
  some, List, length, take, All, arith,
}
use utamo_os.Net.Packet.{IsByte, be16, be32, net_get16}
use utamo_os.Net.Checksum.{net_checksum}
use utamo_os.Net.Ethernet.{
  EthernetPacket, net_mac_unicast, ethernet_build, ethernet_decode, frame_of, ethernet_build-lem,
  ethernet_decode-frame_of,
}
use utamo_os.Net.Ipv4.{
  Ipv4Packet, net_ip_unicast, ipv4_build, ipv4_decode, packet_of, ipv4_build-lem,
  ipv4_decode-packet_of, packet_of-passes,
}
use utamo_os.Net.Udp.{
  UdpPacket, udp_build, udp_decode, datagram_of, sum_of, sum_of-passes, datagram_of-sum,
  sealed-positive, checksum, checksum-covered, udp_build-lem, udp_decode-datagram_of,
}

-- The arrays `frame`, `packet` of send_ip and `packet` of send_udp.
pub record Buffers : Type 0 where
  pub frame : List ℕ
  pub packet : List ℕ
  pub datagram : List ℕ

abbrev pub HasSizes : Buffers → Type 0
HasSizes b = (length b.frame ≡ 1514) × (length b.packet ≡ 1500) × (length b.datagram ≡ 1480)

-- `local_mac` is s->nic->mac; the result is the frame given to the card.
unfoldable pub send_ethernet : Buffers → List ℕ → List ℕ → ℕ → List ℕ → Option (List ℕ)
send_ethernet b local_mac mac type payload =
    elim (ethernet_build b.frame local_mac mac type payload) [
      | none ↦ none
      | some built ↦ some (take built.1 built.0)
    ]

-- The result is the new s->ip_id, with the frame.
unfoldable pub send_ip : Buffers → List ℕ → List ℕ → ℕ → ℕ → ℕ → ℕ → List ℕ → ℕ × Option (List ℕ)
unfolding send_ethernet
send_ip b local_mac mac ip_id source destination protocol payload =
    let id = (ip_id + 1) % 2 ^ 16 in
    (
      id,
      elim (ipv4_build b.packet source destination protocol id payload) [
        | none ↦ none
        | some built ↦ send_ethernet b local_mac mac 0x800 (take built.1 built.0)
      ],
    )

unfoldable pub send_udp :
    Buffers → List ℕ → List ℕ → ℕ → ℕ → ℕ → ℕ → ℕ → List ℕ → ℕ × Option (List ℕ)
unfolding send_ip
send_udp b local_mac mac ip_id source destination from to payload =
    elim (udp_build b.datagram source destination from to payload) [
      | none ↦ (ip_id, none)
      | some built ↦ send_ip b local_mac mac ip_id source destination 17 (take built.1 built.0)
    ]

-- The three decoders that a datagram meets on its way in.
unfoldable pub receive_udp : List ℕ → Option (EthernetPacket × Ipv4Packet × UdpPacket)
receive_udp p = elim (ethernet_decode p) [
  | none ↦ none
  | some eth ↦ elim (ipv4_decode eth.payload) [
    | none ↦ none
    | some ip ↦ elim (udp_decode ip) [ none ↦ none | some udp ↦ some (eth, ip, udp) ]
  ]
]

module _ (b : Buffers) (local_mac mac : List ℕ) (ip_id source destination from to : ℕ)
    (payload : List ℕ) where
  abbrev id : ℕ
  id = (ip_id + 1) % 2 ^ 16

  abbrev datagram : List ℕ
  datagram = datagram_of from to payload (sum_of source destination from to payload)

  abbrev packet : List ℕ
  packet = packet_of source destination 17 id datagram

  send_udp-frame_of :
      HasSizes b
      → length local_mac ≡ 6
      → length mac ≡ 6
      → net_mac_unicast local_mac ≡ true
      → (source ≡ 0) ⊎ (net_ip_unicast source ≡ true)
      → (net_ip_unicast destination ≡ true) ⊎ (destination ≡ 2 ^ 32 - 1)
      → from ≢ 0
      → to ≢ 0
      → length payload ≤ 1472
      → send_udp b local_mac mac ip_id source destination from to payload
        ≡ (id, some (frame_of local_mac mac 0x800 packet))
  unfolding send_udp
  send_udp-frame_of (sizes, sizes', sizes'') hl hm unicast hs hd hf ht short =
      let (udp, (eu, tu)) =
        udp_build-lem b.datagram source destination from to payload hf ht short (omega arith) in
      let (ip, (ei, ti)) =
        ipv4_build-lem b.packet source destination 17 id datagram hs hd (omega arith)
          (omega arith) in
      let (eth, (ee, te)) =
        ethernet_build-lem b.frame local_mac mac packet 0x800 hl hm unicast (omega arith)
          (omega arith) in
      rw (eu, send_udp) (rw tu (rw (ei, send_ip) (rw ti (rw (ee, send_ethernet) (rw te refl)))))

  receive_udp-frame_of :
      length local_mac ≡ 6
      → length mac ≡ 6
      → net_mac_unicast local_mac ≡ true
      → source < 2 ^ 32
      → destination < 2 ^ 32
      → from ≢ 0
      → to ≢ 0
      → from < 2 ^ 16
      → to < 2 ^ 16
      → All IsByte payload
      → length payload ≤ 1472
      → receive_udp (frame_of local_mac mac 0x800 packet)
        ≡ some (
          record { destination = mac; source = local_mac; type = 0x800; payload = packet },
          record { source = source; destination = destination; protocol = 17; payload = datagram },
          record { source = from; destination = to; payload = payload },
        )
  unfolding receive_udp
  receive_udp-frame_of hl hm unicast ws wd hf ht wf wt bytes short =
      let eth =
        ethernet_decode-frame_of local_mac mac packet 0x800 hl hm unicast (omega arith)
          (omega arith) in
      let ip =
        ipv4_decode-packet_of source destination 17 id datagram ws wd (omega arith) (omega arith) in
      let udp = udp_decode-datagram_of source destination from to payload bytes hf ht wf wt short in
      rw (eth, receive_udp) (rw ip (rw udp refl))

  -- If the card's address is unicast, the source is 0.0.0.0 or unicast, the destination unicast or
  -- the broadcast address, no port is 0 and the payload has at most 1472 bytes, send_udp takes the
  -- next identification and makes a frame whose decoding as a frame, a packet and a datagram gives
  -- the addresses, the protocol, the ports and the payload. The checksums of the header of the packet
  -- and of the datagram with its pseudo header are right, and the datagram's is not 0, which stands for none.
  pub send_udp-receive_udp :
      HasSizes b
      → length local_mac ≡ 6
      → length mac ≡ 6
      → net_mac_unicast local_mac ≡ true
      → (source ≡ 0) ⊎ (net_ip_unicast source ≡ true)
      → (net_ip_unicast destination ≡ true) ⊎ (destination ≡ 2 ^ 32 - 1)
      → source < 2 ^ 32
      → destination < 2 ^ 32
      → from ≢ 0
      → to ≢ 0
      → from < 2 ^ 16
      → to < 2 ^ 16
      → All IsByte payload
      → length payload ≤ 1472
      → (frame inner carried : List ℕ) × ((send_udp b local_mac mac ip_id source destination from to
              payload
            ≡ ((ip_id + 1) % 2 ^ 16, some frame))
          × (receive_udp frame
              ≡ some (
                record { destination = mac; source = local_mac; type = 0x800; payload = inner },
                record {
                  source = source;
                  destination = destination;
                  protocol = 17;
                  payload = carried;
                },
                record { source = from; destination = to; payload = payload },
              ))
          × (net_checksum (take 20 inner) ≡ 0)
          × (net_checksum (
                be32 source
                ++ be32 destination
                ++ 0 ∷ 17 ∷ be16 (length carried % 2 ^ 16)
                ++ carried)
              ≡ 0)
          × (net_get16 carried 6 ≢ 0))
  send_udp-receive_udp sizes hl hm unicast hs hd ws wd hf ht wf wt bytes short =
      let sum = sum_of source destination from to payload in
      let (below, passes) = sum_of-passes source destination from to payload bytes in
      let sent = datagram_of-sum from to payload sum below in
      let positive =
        sealed-positive (checksum source destination (datagram_of from to payload 0)) in
      (
        frame_of local_mac mac 0x800 packet,
        packet,
        datagram,
        (
          send_udp-frame_of sizes hl hm unicast hs hd hf ht short,
          receive_udp-frame_of hl hm unicast ws wd hf ht wf wt bytes short,
          packet_of-passes source destination 17 id datagram (omega arith),
          sym (checksum-covered source destination from to payload sum) ∙ passes,
          λ e. omega arith,
        ),
      )
