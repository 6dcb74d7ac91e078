-- ===== src/Net/Ethernet.antt =====
-- kernel/net/ethernet.c: the frame around a packet.
use utamo_os.Common.{
  ℕ, ◌+◌, ◌*◌, ◌/◌, ◌%◌, ◌^◌, ◌<◌, ◌≤◌, ◌≡◌, sym, ap, ◌∙◌, Bool, true, false, not, ◌&&◌, ◌||◌,
  Option, none, some, List, [], ◌∷◌, ◌++◌, get_or, length, take, drop, ltb, ◌==◌, if◌then◌else◌,
  arith, length-append,
}
use mathlib.Core.Path.{subst}
use utamo_os.Net.Packet.{
  net_get16, net_put16, copy_to, copy_to-start, take-exact, six, length-drop_le, opened,
}

-- `bits`, the or of the bytes, is not 0.
abbrev pub any_bits : List ℕ → Bool
any_bits [] = false
any_bits (b ∷ mac) = not (b == 0) || any_bits mac

unfoldable pub net_mac_unicast : List ℕ → Bool
net_mac_unicast mac = not (get_or mac 0 0 % 2 == 1) && any_bits (take 6 mac)

pub record EthernetPacket : Type 0 where
  pub destination : List ℕ
  pub source : List ℕ
  pub type : ℕ
  pub payload : List ℕ

unfoldable pub ethernet_decode : List ℕ → Option EthernetPacket
ethernet_decode p =
    if ltb (length p) 14 || ltb 1514 (length p)
    then none
    else if not (net_mac_unicast (take 6 (drop 6 p)))
    then none
    else some (record {
      destination = take 6 p;
      source = take 6 (drop 6 p);
      type = net_get16 p 12;
      payload = drop 14 p;
    })

-- The buffer and the count of bytes written.
unfoldable pub ethernet_build : List ℕ → List ℕ → List ℕ → ℕ → List ℕ → Option (List ℕ × ℕ)
ethernet_build out source destination type payload =
    if not (net_mac_unicast source)
      || ltb 1500 (length payload)
      || ltb (length out) (length payload + 14)
    then none
    else let addressed = copy_to (copy_to out 0 destination) 6 source in
      some (copy_to (net_put16 addressed 12 type) 14 payload, length payload + 14)

-- What `ethernet_build` writes.
abbrev pub frame_of : List ℕ → List ℕ → ℕ → List ℕ → List ℕ
frame_of source destination type payload =
    (destination ++ (source ++ (type / 256 % 256) ∷ (type % 256) ∷ [])) ++ payload

copies :
    (out source destination payload : List ℕ) (type : ℕ)
    → length source ≡ 6
    → length destination ≡ 6
    → length payload + 14 ≤ length out
    → copy_to (net_put16 (copy_to (copy_to out 0 destination) 6 source) 12 type) 14 payload
      ≡ frame_of source destination type payload ++ drop (length payload) (drop 14 out)
copies out source destination payload type hs hd room =
    let (a, b, c, d, e, f, eqs) = six source hs in
    let (g, h, i, j, k, l, eqd) = six destination hd in
    let (front, eqo) = opened 14 out (omega arith) in
    let rest = length-drop_le 14 out (omega arith) in
    let header = frame_of (a ∷ b ∷ c ∷ d ∷ e ∷ f ∷ []) (g ∷ h ∷ i ∷ j ∷ k ∷ l ∷ []) type [] in
    subst
      (λ s.
        copy_to (net_put16 (copy_to (copy_to out 0 destination) 6 s) 12 type) 14 payload
        ≡ frame_of s destination type payload ++ drop (length payload) (drop 14 out))
      (sym eqs)
      (subst
        (λ t.
          copy_to (net_put16 (copy_to (copy_to out 0 t) 6 (a ∷ b ∷ c ∷ d ∷ e ∷ f ∷ [])) 12 type) 14
            payload
          ≡ frame_of (a ∷ b ∷ c ∷ d ∷ e ∷ f ∷ []) t type payload
            ++ drop (length payload) (drop 14 out))
        (sym eqd)
        (ap
            (λ o.
              copy_to
                (net_put16
                  (copy_to (copy_to o 0 (g ∷ h ∷ i ∷ j ∷ k ∷ l ∷ [])) 6
                    (a ∷ b ∷ c ∷ d ∷ e ∷ f ∷ []))
                  12 type)
                14 payload)
            eqo
          ∙ ap (λ t. header ++ t) (copy_to-start (drop 14 out) payload (omega arith))))

-- A frame that is built of addresses, a type and at most 1500 bytes is taken apart into the same.
pub ethernet_decode-frame_of :
    (source destination payload : List ℕ) (type : ℕ)
    → length source ≡ 6
    → length destination ≡ 6
    → net_mac_unicast source ≡ true
    → type < 2 ^ 16
    → length payload ≤ 1500
    → ethernet_decode (frame_of source destination type payload)
      ≡ some (record { destination = destination; source = source; type = type; payload = payload })
unfolding ethernet_decode
ethernet_decode-frame_of source destination payload type hs hd unicast word short =
    let (a, b, c, d, e, f, eqs) = six source hs in
    let (g, h, i, j, k, l, eqd) = six destination hd in
    let unicast' : net_mac_unicast (a ∷ b ∷ c ∷ d ∷ e ∷ f ∷ []) ≡ true =
      ap net_mac_unicast (sym eqs) ∙ unicast in
    let whole : type / 256 % 256 * 256 + type % 256 ≡ type = omega arith in
    rw eqs (rw eqd (rw whole (rw unicast' (ground arith))))

-- What is built is taken apart again.
pub ethernet_build-lem :
    (out source destination payload : List ℕ) (type : ℕ)
    → length source ≡ 6
    → length destination ≡ 6
    → net_mac_unicast source ≡ true
    → length payload ≤ 1500
    → length payload + 14 ≤ length out
    → (buffer : List ℕ) × ((ethernet_build out source destination type payload
          ≡ some (buffer, length payload + 14))
        × (take (length payload + 14) buffer ≡ frame_of source destination type payload))
unfolding ethernet_build
ethernet_build-lem out source destination payload type hs hd unicast short room =
    let placed = copies out source destination payload type hs hd room in
    let ending : List ℕ = (type / 256 % 256) ∷ (type % 256) ∷ [] in
    let whole : length (frame_of source destination type payload)
        ≡ length (destination ++ (source ++ ending)) + length payload =
      length-append (destination ++ (source ++ ending)) payload in
    let addresses : length (destination ++ (source ++ ending))
        ≡ length destination + length (source ++ ending) =
      length-append destination (source ++ ending) in
    let last : length (source ++ ending) ≡ length source + 2 = length-append source ending in
    let count : length payload + 14 ≡ length (frame_of source destination type payload) =
      omega arith in
    (
      frame_of source destination type payload ++ drop (length payload) (drop 14 out),
      (
        rw unicast (rw placed (ground arith)),
        take-exact (length payload + 14) (frame_of source destination type payload)
            (drop (length payload) (drop 14 out)) count,
      ),
    )
