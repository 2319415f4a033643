-- ===== src/Net/Resolve.antt =====
-- src/net/net.c: a request and its answer, between two stacks, resolve an address.
use cro_os.Base.{
  ℕ, ◌+◌, ◌*◌, ◌/◌, ◌%◌, ◌^◌, ◌<◌, ◌≡◌, inl, inr, refl, List, [], ◌∷◌, ◌++◌, Option, none, some,
  get_or, arith, true, Bool-cases, Option-cases, ◌==◌, eq→==,
}
use cro_os.Net.{Bytes, Mac, Net, ArpEntry, zero_mac}
use cro_os.Net.Arp.{
  arp_find, renewed, added, learn, handle_arp, arp_frame, broadcast, send_arp_request,
}

-- A cache with an entry for an address, or with one that is free.
pub data HasRoom (ip : ℕ) : List ArpEntry → Type 0 where
  known : (e : ArpEntry) (es : List ArpEntry) → e.ip ≡ ip → HasRoom ip (e ∷ es)
  vacant : (e : ArpEntry) (es : List ArpEntry) → e.ip ≡ 0 → HasRoom ip (e ∷ es)
  behind : (e : ArpEntry) (es : List ArpEntry) → HasRoom ip es → HasRoom ip (e ∷ es)

-- The first loop finds the entry and renews it, or there is none.
abbrev IsRenewed : ℕ → Mac → List ArpEntry → Option (List ArpEntry) → Type 0
IsRenewed ip mac es none = arp_find ip es ≡ none
IsRenewed ip mac es (some es') = arp_find ip es' ≡ some mac

renewed-IsRenewed :
    (ip : ℕ) (mac : Mac) (es : List ArpEntry) → IsRenewed ip mac es (renewed ip mac es)
unfolding renewed arp_find
renewed-IsRenewed ip mac [] = refl
renewed-IsRenewed ip mac (e ∷ es) = elim (Bool-cases (e.ip == ip)) [
  | inl b ↦ rw b (ground (arith, b))
  | inr b ↦ elim (Option-cases (renewed ip mac es)) [
    | inl n ↦
        let ih : IsRenewed ip mac es none = rw n at (renewed-IsRenewed ip mac es) in
        rw (b, n) (ground (arith, b, ih))
    | inr (fs, n) ↦
        let ih : IsRenewed ip mac es (some fs) = rw n at (renewed-IsRenewed ip mac es) in
        rw (b, n) (ground (arith, b, ih))
  ]
]

arp_find-added :
    (ip : ℕ) (mac : Mac) (es : List ArpEntry)
    → HasRoom ip es
    → arp_find ip es ≡ none
    → arp_find ip (added ip mac es) ≡ some mac
unfolding added arp_find
arp_find-added ip mac [] r n = elim r [ ]
arp_find-added ip mac (d ∷ ds) (known e es eq) n = ground (arith, n, eq)
arp_find-added ip mac (d ∷ ds) (vacant e es eq) n = ground (arith, n, eq)
arp_find-added ip mac (d ∷ ds) (behind e es r) n = elim (Bool-cases (d.ip == 0)) [
  | inl z ↦ rw z (ground arith)
  | inr z ↦ elim (Bool-cases (d.ip == ip)) [
    | inl b ↦ ground (arith, b, n)
    | inr b ↦ ground (arith, b, z, arp_find-added ip mac ds r (ground (arith, b, n)))
  ]
]

arp_find-learn :
    (ip : ℕ) (mac : Mac) (es : List ArpEntry)
    → HasRoom ip es
    → arp_find ip (learn ip mac es) ≡ some mac
unfolding learn
arp_find-learn ip mac es r = elim (Option-cases (renewed ip mac es)) [
  | inl n ↦
      let q : IsRenewed ip mac es none = rw n at (renewed-IsRenewed ip mac es) in
      rw (n, learn) (arp_find-added ip mac es r q)
  | inr (es', n) ↦
      let q : IsRenewed ip mac es (some es') = rw n at (renewed-IsRenewed ip mac es) in
      rw (n, learn) q
]

-- A frame as it is received.
abbrev pub received : List ℕ → Bytes
received frame i = get_or frame i 0

read32-le32 :
    (w : ℕ)
    → w < 2 ^ 32
    → w % 256 + 256 * (w / 256 % 256) + 2 ^ 16 * (w / 2 ^ 16 % 256) + 2 ^ 24 * (w / 2 ^ 24 % 256)
      ≡ w
read32-le32 w h = omega arith

-- The machine `b` answers the request for its address that `a` broadcasts, and from the answer
-- `a` learns the hardware address of `b`; `b` learns nothing. The addresses have 32 bits, both have
-- a network card, and the cache of `a` has an entry for the address or a free one.
pub arp_exchange :
    (a b : Net)
    → a.nic_send ≡ true
    → b.nic_send ≡ true
    → a.local_ip < 2 ^ 32
    → b.local_ip < 2 ^ 32
    → HasRoom b.local_ip a.arp_cache
    → let request = arp_frame broadcast 1 zero_mac b.local_ip a in
      let reply = arp_frame a.local_mac 2 a.local_mac a.local_ip b in
      (send_arp_request b.local_ip a ≡ record a { frames = a.frames ++ (request ∷ []) })
      × (handle_arp (received request) 42 b ≡ record b { frames = b.frames ++ (reply ∷ []) })
      × (arp_find b.local_ip (handle_arp (received reply) 42 a).arp_cache ≡ some b.local_mac)
unfolding handle_arp send_arp_request arp_frame
arp_exchange a b na nb wa wb r =
    let ea = read32-le32 a.local_ip wa in
    let eb = read32-le32 b.local_ip wb in
    (
      ground (arith, na),
      rw (ea, eb, eq→== b.local_ip b.local_ip refl) (simp nb refl),
      rw eb (arp_find-learn b.local_ip b.local_mac a.arp_cache r),
    )
