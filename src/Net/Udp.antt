-- ===== src/Net/Udp.antt =====
-- kernel/net/udp.c: datagrams, with the checksum over the pseudo header.
use utamo_os.Common.{
  ℕ, ◌+◌, ◌-◌, ◌*◌, ◌/◌, ◌%◌, ◌^◌, ◌≤◌, ◌<◌, ◌≡◌, ◌≢◌, refl, ap, ◌∙◌, not, ◌&&◌, ◌||◌, Option, none,
  some, List, ◌∷◌, ◌++◌, set, length, take, drop, replicate, All, ltb, ◌==◌, if◌then◌else◌, arith,
  Bool-cases, inl, inr, ==_iff,
}
use utamo_os.Net.Packet.{
  net_get16, net_put16, net_put32, copy_to, copy_to-start, take-exact, length-drop_le, opened,
  IsByte, be16, be32, get_be16,
}
use utamo_os.Net.Checksum.{
  net_checksum, word_total, ones_sum, ones_sum-completes, ones_sum-full, net_checksum-ones_sum,
  net_checksum-passes,
}
use utamo_os.Net.Ipv4.{Ipv4Packet}

-- `checksum`: of the pseudo header and the data.
unfoldable pub checksum : ℕ → ℕ → List ℕ → ℕ
checksum source destination p =
    let addressed = net_put32 (net_put32 (replicate 12 0) 0 source) 4 destination in
    net_checksum (net_put16 (set (set addressed 8 0) 9 17) 10 (length p % 2 ^ 16) ++ p)

pub record UdpPacket : Type 0 where
  pub source : ℕ
  pub destination : ℕ
  pub payload : List ℕ

unfoldable pub udp_decode : Ipv4Packet → Option UdpPacket
udp_decode ip =
    let p = ip.payload in
    if not (ip.protocol == 17) || ltb (length p) 8 || ltb 1480 (length p)
    then none
    else if not (net_get16 p 4 == length p)
        || net_get16 p 0 == 0
        || net_get16 p 2 == 0
        || (not (net_get16 p 6 == 0) && not (checksum ip.source ip.destination p == 0))
    then none
    else some (record { source = net_get16 p 0; destination = net_get16 p 2; payload = drop 8 p })

-- A checksum of 0 is sent as 0xffff, since 0 stands for none.
unfoldable pub sealed : ℕ → ℕ
sealed sum = if sum == 0 then 0xffff else sum

unfoldable pub udp_build : List ℕ → ℕ → ℕ → ℕ → ℕ → List ℕ → Option (List ℕ × ℕ)
udp_build out source_ip destination_ip source destination payload =
    let bytes = length payload in
    if ltb 1472 bytes || ltb (length out) (bytes + 8) || source == 0 || destination == 0
    then none
    else let sized =
        net_put16 (net_put16 (net_put16 out 0 source) 2 destination) 4 ((bytes + 8) % 2 ^ 16) in
      let p = copy_to (net_put16 sized 6 0) 8 payload in
      let sum = sealed (checksum source_ip destination_ip (take (bytes + 8) p)) in
      some (net_put16 p 6 sum, bytes + 8)

-- A datagram with a checksum, byte by byte.
abbrev pub datagram_of : ℕ → ℕ → List ℕ → ℕ → List ℕ
datagram_of source destination payload sum =
    be16 source ++ be16 destination ++ be16 ((length payload + 8) % 2 ^ 16) ++ be16 sum ++ payload

-- The bytes that its checksum covers
abbrev pub covered : ℕ → ℕ → ℕ → ℕ → List ℕ → ℕ → List ℕ
covered source_ip destination_ip source destination payload sum =
    be32 source_ip
    ++ be32 destination_ip
    ++ 0 ∷ 17 ∷ be16 (length (datagram_of source destination payload sum) % 2 ^ 16)
    ++ datagram_of source destination payload sum

pub checksum-covered :
    (source_ip destination_ip source destination : ℕ) (payload : List ℕ) (sum : ℕ)
    → checksum source_ip destination_ip (datagram_of source destination payload sum)
      ≡ net_checksum (covered source_ip destination_ip source destination payload sum)
unfolding checksum
checksum-covered source_ip destination_ip source destination payload sum = refl

covered-bytes :
    (source_ip destination_ip source destination : ℕ) (payload : List ℕ) (sum : ℕ)
    → All IsByte payload
    → All IsByte (covered source_ip destination_ip source destination payload sum)
covered-bytes source_ip destination_ip source destination payload sum bytes = ground arith

covered-word_total :
    (source_ip destination_ip source destination : ℕ) (payload : List ℕ) (sum : ℕ)
    → sum < 2 ^ 16
    → word_total (covered source_ip destination_ip source destination payload sum)
      ≡ word_total (covered source_ip destination_ip source destination payload 0) + sum
covered-word_total source_ip destination_ip source destination payload sum h = omega arith

-- The checksum that `udp_build` writes
abbrev pub sum_of : ℕ → ℕ → ℕ → ℕ → List ℕ → ℕ
sum_of source_ip destination_ip source destination payload =
    sealed (checksum source_ip destination_ip (datagram_of source destination payload 0))

-- `sealed` of a checksum is below 2 ^ 16, and completes the total that the checksum is of.
sealed-completes :
    (n : ℕ)
    → n ≢ 0
    → (sealed (65535 - ones_sum n) < 2 ^ 16) × ((n + sealed (65535 - ones_sum n)) % 65535 ≡ 0)
unfolding sealed
sealed-completes n h = elim (Bool-cases ((65535 - ones_sum n) == 0)) [
  | inl zero_sum ↦
      let full = ones_sum-full n ((==_iff (65535 - ones_sum n) 0).0 zero_sum) in
      rw zero_sum (omega arith, full)
  | inr other ↦ let completes = ones_sum-completes n h in rw other (omega arith, completes)
]

pub sum_of-passes :
    (source_ip destination_ip source destination : ℕ) (payload : List ℕ)
    → All IsByte payload
    → (sum_of source_ip destination_ip source destination payload < 2 ^ 16)
      × (checksum source_ip destination_ip (
            datagram_of source destination payload
              (sum_of source_ip destination_ip source destination payload))
          ≡ 0)
sum_of-passes source_ip destination_ip source destination payload bytes =
    let blank = covered source_ip destination_ip source destination payload 0 in
    let sum = sum_of source_ip destination_ip source destination payload in
    let known : sum ≡ sealed (65535 - ones_sum (word_total blank)) = ap sealed (
      checksum-covered source_ip destination_ip source destination payload 0
      ∙ net_checksum-ones_sum blank
          (covered-bytes source_ip destination_ip source destination payload 0 bytes)) in
    let (small, completes) = sealed-completes (word_total blank) (λ e. omega arith) in
    let below : sum < 2 ^ 16 = omega arith in
    let total = covered-word_total source_ip destination_ip source destination payload sum below in
    (
      below,
      checksum-covered source_ip destination_ip source destination payload sum
          ∙ net_checksum-passes (covered source_ip destination_ip source destination payload sum)
              (covered-bytes source_ip destination_ip source destination payload sum bytes)
              (λ e. omega arith) (omega arith),
    )

-- The checksum is sent: its field is not the 0 that stands for none.
pub datagram_of-sum :
    (source destination : ℕ) (payload : List ℕ) (sum : ℕ)
    → sum < 2 ^ 16
    → net_get16 (datagram_of source destination payload sum) 6 ≡ sum
datagram_of-sum source destination payload sum below = get_be16 sum below

pub sealed-positive : (sum : ℕ) → 1 ≤ sealed sum
unfolding sealed
sealed-positive sum = ground arith

copies :
    (out : List ℕ) (source destination : ℕ) (payload : List ℕ)
    → length payload + 8 ≤ length out
    → copy_to
        (net_put16
          (net_put16
            (net_put16 (net_put16 out 0 source) 2 destination)
            4
            ((length payload + 8) % 2 ^ 16))
          6
          0)
        8
        payload
      ≡ datagram_of source destination payload 0 ++ drop (length payload) (drop 8 out)
copies out source destination payload room =
    let (front, eqo) = opened 8 out (omega arith) in
    let rest = length-drop_le 8 out (omega arith) in
    let header : List ℕ =
      be16 source ++ be16 destination ++ be16 ((length payload + 8) % 2 ^ 16) ++ be16 0 in
    ap
      (λ o.
        copy_to
          (net_put16
            (net_put16 (net_put16 (net_put16 o 0 source) 2 destination) 4
              ((length payload + 8) % 2 ^ 16))
            6 0)
          8 payload)
      eqo
    ∙ ap (λ t. header ++ t) (copy_to-start (drop 8 out) payload (omega arith))

pub udp_build-lem :
    (out : List ℕ) (source_ip destination_ip source destination : ℕ) (payload : List ℕ)
    → source ≢ 0
    → destination ≢ 0
    → length payload ≤ 1472
    → length payload + 8 ≤ length out
    → (buffer : List ℕ) × ((udp_build out source_ip destination_ip source destination payload
          ≡ some (buffer, length payload + 8))
        × (take (length payload + 8) buffer
            ≡ datagram_of source destination payload
                (sum_of source_ip destination_ip source destination payload)))
unfolding udp_build
udp_build-lem out source_ip destination_ip source destination payload hs hd short room =
    let placed = copies out source destination payload room in
    let sum = sum_of source_ip destination_ip source destination payload in
    let blank = datagram_of source destination payload 0 in
    let left = drop (length payload) (drop 8 out) in
    let count : length payload + 8 ≡ length blank = omega arith in
    let count' : length payload + 8 ≡ length (datagram_of source destination payload sum) =
      omega arith in
    let covers : take (length payload + 8) (blank ++ left) ≡ blank =
      take-exact (length payload + 8) blank left count in
    (
      datagram_of source destination payload sum ++ left,
      (
        rw placed (rw covers (ground arith)),
        take-exact (length payload + 8) (datagram_of source destination payload sum) left count',
      ),
    )

pub udp_decode-datagram_of :
    (source_ip destination_ip source destination : ℕ) (payload : List ℕ)
    → All IsByte payload
    → source ≢ 0
    → destination ≢ 0
    → source < 2 ^ 16
    → destination < 2 ^ 16
    → length payload ≤ 1472
    → udp_decode (record {
      source = source_ip;
      destination = destination_ip;
      protocol = 17;
      payload =
          datagram_of source destination payload
            (sum_of source_ip destination_ip source destination payload);
    })
      ≡ some (record { source = source; destination = destination; payload = payload })
unfolding udp_decode
udp_decode-datagram_of source_ip destination_ip source destination payload bytes ps pd ws wd short =
    let (below, passes) = sum_of-passes source_ip destination_ip source destination payload bytes in
    let from = get_be16 source ws in
    let to = get_be16 destination wd in
    let total : (length payload + 8) % 2 ^ 16 / 256 % 256 * 256
          + (length payload + 8) % 2 ^ 16 % 256
        ≡ length payload + 8 =
      omega arith in
    rw passes (rw from (rw to (rw total (ground arith))))
