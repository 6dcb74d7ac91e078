-- ===== src/Net/Ipv4.antt =====
-- kernel/net/ipv4.c: addresses, masks and the header of a packet.
use utamo_os.Common.{
  ℕ, zero, suc, ◌+◌, ◌-◌, ◌*◌, ◌/◌, ◌%◌, ◌^◌, ◌≤◌, ◌<◌, ◌≡◌, ◌≢◌, ◌⊎◌, ap, ◌∙◌, Bool, true, not,
  ◌&&◌, ◌||◌, Option, none, some, List, [], ◌∷◌, ◌++◌, get_or, set, length, take, drop, All, ltb,
  ◌==◌, if◌then◌else◌, arith,
}
use utamo_os.Net.Packet.{
  net_get16, net_get32, net_put16, net_put32, copy_to, copy_to-start, take-exact, take-length,
  length-drop_le, opened, IsByte, be16, be32, get_be32,
}
use utamo_os.Net.Checksum.{
  net_checksum, word_total, ones_sum, ones_sum-completes, net_checksum-ones_sum,
  net_checksum-passes,
}

unfoldable pub net_ip_unicast : ℕ → Bool
net_ip_unicast ip =
    let first = ip / 2 ^ 24 in not (first == 0) && not (first == 127) && ltb first 224

pub record Ipv4Packet : Type 0 where
  pub source : ℕ
  pub destination : ℕ
  pub protocol : ℕ
  pub payload : List ℕ

-- (flags & 0xbfff) != 0: a bit is set other than the one that forbids fragments.
abbrev pub is_fragment : ℕ → Bool
is_fragment flags = not (flags % 2 ^ 14 == 0) || not (flags / 2 ^ 15 == 0)

unfoldable pub ipv4_decode : List ℕ → Option Ipv4Packet
ipv4_decode p =
    let first = get_or p 0 0 in
    let header = first % 16 * 4 in
    let total = net_get16 p 2 in
    if ltb (length p) 20
      || not (first / 16 == 4)
      || not (header == 20)
      || ltb (length p) header
      || ltb total header
      || ltb (length p) total
      || ltb 1500 total
      || get_or p 8 0 == 0
      || is_fragment (net_get16 p 6)
      || not (net_checksum (take header p) == 0)
    then none
    else some (record {
      source = net_get32 p 12;
      destination = net_get32 p 16;
      protocol = get_or p 9 0;
      payload = take (total - header) (drop header p);
    })

-- memset(p, 0, n)
abbrev pub clear : ℕ → List ℕ → List ℕ
clear zero p = p
clear (suc n) [] = []
clear (suc n) (x ∷ p) = 0 ∷ clear n p

-- The stores into the header before its checksum, `n` the count of bytes of the payload.
abbrev pub put_header : List ℕ → ℕ → ℕ → ℕ → ℕ → ℕ → List ℕ
put_header out source destination protocol id n =
    let cleared = set (clear 20 out) 0 0x45 in
    let sized = net_put16 (net_put16 cleared 2 ((20 + n) % 2 ^ 16)) 4 id in
    let typed = set (set (net_put16 sized 6 0x4000) 8 64) 9 protocol in
    net_put32 (net_put32 typed 12 source) 16 destination

unfoldable pub ipv4_build : List ℕ → ℕ → ℕ → ℕ → ℕ → List ℕ → Option (List ℕ × ℕ)
ipv4_build out source destination protocol id payload =
    if ltb 1480 (length payload)
      || ltb (length out) (20 + length payload)
      || (not (source == 0) && not (net_ip_unicast source))
      || (not (net_ip_unicast destination) && not (destination == 2 ^ 32 - 1))
    then none
    else let p = put_header out source destination protocol id (length payload) in
      some (copy_to (net_put16 p 10 (net_checksum (take 20 p))) 20 payload, 20 + length payload)

-- The header with a checksum, byte by byte.
abbrev pub header_of : ℕ → ℕ → ℕ → ℕ → ℕ → ℕ → List ℕ
header_of source destination protocol id n sum =
    0x45 ∷ 0 ∷ be16 ((20 + n) % 2 ^ 16)
    ++ be16 id
    ++ 0x40 ∷ 0 ∷ 64 ∷ protocol ∷ be16 sum
    ++ be32 source
    ++ be32 destination

header_of-bytes :
    (source destination protocol id n sum : ℕ)
    → protocol < 256
    → All IsByte (header_of source destination protocol id n sum)
header_of-bytes source destination protocol id n sum h = ground arith

header_of-word_total :
    (source destination protocol id n sum : ℕ)
    → sum < 2 ^ 16
    → word_total (header_of source destination protocol id n sum)
      ≡ word_total (header_of source destination protocol id n 0) + sum
header_of-word_total source destination protocol id n sum h = omega arith

-- The packet that `ipv4_build` writes.
abbrev pub packet_of : ℕ → ℕ → ℕ → ℕ → List ℕ → List ℕ
packet_of source destination protocol id payload =
    header_of source destination protocol id (length payload)
      (net_checksum (header_of source destination protocol id (length payload) 0))
    ++ payload

copies :
    (out : List ℕ) (source destination protocol id : ℕ) (payload : List ℕ)
    → 20 + length payload ≤ length out
    → let p = put_header out source destination protocol id (length payload) in
      copy_to (net_put16 p 10 (net_checksum (take 20 p))) 20 payload
      ≡ packet_of source destination protocol id payload ++ drop (length payload) (drop 20 out)
copies out source destination protocol id payload room =
    let (front, eqo) = opened 20 out (omega arith) in
    let rest = length-drop_le 20 out (omega arith) in
    let header =
      header_of source destination protocol id (length payload)
        (net_checksum (header_of source destination protocol id (length payload) 0)) in
    ap
      (λ o.
        let p = put_header o source destination protocol id (length payload) in
        copy_to (net_put16 p 10 (net_checksum (take 20 p))) 20 payload)
      eqo
    ∙ ap (λ t. header ++ t) (copy_to-start (drop 20 out) payload (omega arith))

pub ipv4_build-lem :
    (out : List ℕ) (source destination protocol id : ℕ) (payload : List ℕ)
    → (source ≡ 0) ⊎ (net_ip_unicast source ≡ true)
    → (net_ip_unicast destination ≡ true) ⊎ (destination ≡ 2 ^ 32 - 1)
    → length payload ≤ 1480
    → 20 + length payload ≤ length out
    → (buffer : List ℕ) × ((ipv4_build out source destination protocol id payload
          ≡ some (buffer, 20 + length payload))
        × (take (20 + length payload) buffer ≡ packet_of source destination protocol id payload))
unfolding ipv4_build
ipv4_build-lem out source destination protocol id payload from to short room =
    let placed = copies out source destination protocol id payload room in
    let count : 20 + length payload ≡ length (packet_of source destination protocol id payload) =
      omega arith in
    (
      packet_of source destination protocol id payload ++ drop (length payload) (drop 20 out),
      (
        rw placed (ground arith),
        take-exact (20 + length payload) (packet_of source destination protocol id payload)
            (drop (length payload) (drop 20 out)) count,
      ),
    )

header_of-passes :
    (source destination protocol id n : ℕ)
    → protocol < 256
    → net_checksum (
        header_of source destination protocol id n
          (net_checksum (header_of source destination protocol id n 0)))
      ≡ 0
header_of-passes source destination protocol id n h =
    let blank = header_of source destination protocol id n 0 in
    let sum : net_checksum blank ≡ 65535 - ones_sum (word_total blank) =
      net_checksum-ones_sum blank (header_of-bytes source destination protocol id n 0 h) in
    let positive : word_total blank ≢ 0 = λ e. omega arith in
    let divides = ones_sum-completes (word_total blank) positive in
    let total =
      header_of-word_total source destination protocol id n (net_checksum blank) (omega arith) in
    net_checksum-passes (header_of source destination protocol id n (net_checksum blank))
      (header_of-bytes source destination protocol id n (net_checksum blank) h) (λ e. omega arith)
      (omega arith)

-- The header of a packet has a right checksum.
pub packet_of-passes :
    (source destination protocol id : ℕ) (payload : List ℕ)
    → protocol < 256
    → net_checksum (take 20 (packet_of source destination protocol id payload)) ≡ 0
packet_of-passes source destination protocol id payload h =
    header_of-passes source destination protocol id (length payload) h

pub ipv4_decode-packet_of :
    (source destination protocol id : ℕ) (payload : List ℕ)
    → source < 2 ^ 32
    → destination < 2 ^ 32
    → protocol < 256
    → length payload ≤ 1480
    → ipv4_decode (packet_of source destination protocol id payload)
      ≡ some (record {
        source = source;
        destination = destination;
        protocol = protocol;
        payload = payload;
      })
unfolding ipv4_decode
ipv4_decode-packet_of source destination protocol id payload hs hd hp short =
    let passes = header_of-passes source destination protocol id (length payload) hp in
    let from = get_be32 source hs in
    let to = get_be32 destination hd in
    let total : (20 + length payload) % 2 ^ 16 / 256 % 256 * 256
          + (20 + length payload) % 2 ^ 16 % 256
        ≡ 20 + length payload =
      omega arith in
    let carried : take (20 + length payload - 20) payload ≡ payload =
      ap (λ n. take n payload) (omega arith) ∙ take-length payload in
    rw passes (rw from (rw to (rw total (ground (arith, carried)))))
