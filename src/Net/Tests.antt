-- ===== src/Net/Tests.antt =====
-- A checksum and a datagram of kernel/net at concrete inputs, and the theorems there.
use utamo_os.Common.{
  ℕ, ◌+◌, ◌-◌, ◌%◌, ◌^◌, ◌≡◌, refl, true, inl, inr, some, List, [], ◌∷◌, replicate,
  length-replicate, arith, ◌++◌, ◌≢◌, take, length,
}
use utamo_os.Net.Arp.{ArpPacket, Arrives, arp_decode-arp_build}
use utamo_os.Net.Checksum.{
  add_words, fold_all, net_checksum, word_total, ones_sum, net_checksum-ones_sum,
}
use utamo_os.Net.Packet.{be16, be32, net_get16}
use utamo_os.Net.Ethernet.{net_mac_unicast}
use utamo_os.Net.Ipv4.{net_ip_unicast}
use utamo_os.Net.Send.{Buffers, send_udp, receive_udp, send_udp-receive_udp}

-- The words 0xfff0, 0x0020 and 0x0100 carry once.
abbrev words : List ℕ
words = 0xff ∷ 0xf0 ∷ 0x00 ∷ 0x20 ∷ 0x01 ∷ []

net_checksum-words : net_checksum words ≡ 0xfeee
unfolding net_checksum add_words fold_all
net_checksum-words = refl

net_checksum-ones_sum_example : net_checksum words ≡ 65535 - ones_sum (word_total words)
net_checksum-ones_sum_example =
    net_checksum-ones_sum words
      (omega arith, (omega arith, (omega arith, (omega arith, (omega arith, tt)))))

abbrev buffers : Buffers
buffers = record {
  frame = replicate 1514 0;
  packet = replicate 1500 0;
  datagram = replicate 1480 0;
}

abbrev card : List ℕ
card = 2 ∷ 0 ∷ 0 ∷ 0 ∷ 0 ∷ 1 ∷ []

abbrev everyone : List ℕ
everyone = replicate 6 255

abbrev text : List ℕ
text = b'h' ∷ b'i' ∷ b'!' ∷ []

card-unicast : net_mac_unicast card ≡ true
unfolding net_mac_unicast
card-unicast = refl

source-unicast : net_ip_unicast 0x0a00_020f ≡ true
unfolding net_ip_unicast
source-unicast = refl

destination-unicast : net_ip_unicast 0x0a00_0202 ≡ true
unfolding net_ip_unicast
destination-unicast = refl

send_udp-receive_udp_example :
    (frame inner carried : List ℕ) × ((send_udp buffers card everyone 65535 0x0a00_020f 0x0a00_0202
          40000 53 text
        ≡ ((65535 + 1) % 2 ^ 16, some frame))
      × (receive_udp frame
          ≡ some (
            record { destination = everyone; source = card; type = 0x800; payload = inner },
            record {
              source = 0x0a00_020f;
              destination = 0x0a00_0202;
              protocol = 17;
              payload = carried;
            },
            record { source = 40000; destination = 53; payload = text },
          ))
      × (net_checksum (take 20 inner) ≡ 0)
      × (net_checksum (
            be32 0x0a00_020f
            ++ be32 0x0a00_0202
            ++ 0 ∷ 17 ∷ be16 (length carried % 2 ^ 16)
            ++ carried)
          ≡ 0)
      × (net_get16 carried 6 ≢ 0))
send_udp-receive_udp_example =
    send_udp-receive_udp buffers card everyone 65535 0x0a00_020f 0x0a00_0202 40000 53 text
      (
        length-replicate {A = ℕ} 1514 0,
        length-replicate {A = ℕ} 1500 0,
        length-replicate {A = ℕ} 1480 0,
      )
      refl refl card-unicast (inr source-unicast) (inl destination-unicast) (omega arith)
      (omega arith) (λ e. omega arith) (λ e. omega arith) (omega arith) (omega arith)
      (omega arith, (omega arith, (omega arith, tt))) (omega arith)

abbrev request : ArpPacket
request = record {
  operation = 1;
  sender_mac = card;
  target_mac = replicate 6 0;
  sender_ip = 0x0a00_020f;
  target_ip = 0x0a00_0202;
}

arp_decode-arp_build_example : Arrives (replicate 28 255) (replicate 18 0) request
arp_decode-arp_build_example =
    arp_decode-arp_build (replicate 28 255) (replicate 18 0) request
      (inl refl, card-unicast, inr source-unicast, destination-unicast) refl refl (omega arith)
      (omega arith) (omega arith)
