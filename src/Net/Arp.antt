-- ===== src/Net/Arp.antt =====
-- src/net/net.c: ARP. A frame of ARP is 42 bytes: the Ethernet header and the ARP header.
use cro_os.Base.{ℕ, ltb, ◌==◌, ◌&&◌, if◌then◌else◌, List, [], ◌∷◌, ◌++◌, Option, none, some}
use cro_os.Net.{
  Bytes, Mac, ArpEntry, Net, zero_mac, htons, le16, le32, mac_bytes, read16, read32, read_mac,
  send_frame, eth_type_ip, eth_type_arp,
}

abbrev pub broadcast : Mac
broadcast = record { mac_0 = 255; mac_1 = 255; mac_2 = 255; mac_3 = 255; mac_4 = 255; mac_5 = 255 }

abbrev pub eth_header : Mac → Mac → ℕ → List ℕ
eth_header dst src kind = mac_bytes dst ++ (mac_bytes src ++ le16 (htons kind))

-- The two frames that are built: to `dst`, with the target's addresses.
unfoldable pub arp_frame : Mac → ℕ → Mac → ℕ → Net → List ℕ
arp_frame dst opcode target_mac target_ip s =
    eth_header dst s.local_mac eth_type_arp
    ++ (le16 (htons 1)
        ++ (le16 (htons eth_type_ip)
            ++ (6
                ∷ 4
                ∷ (le16 (htons opcode)
                    ++ (mac_bytes s.local_mac
                        ++ (le32 s.local_ip ++ (mac_bytes target_mac ++ le32 target_ip)))))))

unfoldable pub send_arp_request : ℕ → Net → Net
unfolding arp_frame
send_arp_request target_ip s =
    if s.nic_send then send_frame (arp_frame broadcast 1 zero_mac target_ip s) s else s

-- The hardware address of the first entry for an address.
unfoldable pub arp_find : ℕ → List ArpEntry → Option Mac
arp_find ip [] = none
arp_find ip (e ∷ es) = let rest = arp_find ip es in if e.ip == ip then some e.mac else rest

-- The first loop of a reply: the cache with the entry for the address renewed.
unfoldable pub renewed : ℕ → Mac → List ArpEntry → Option (List ArpEntry)
renewed ip mac [] = none
renewed ip mac (e ∷ es) =
    let rest = renewed ip mac es in
    if e.ip == ip
    then some (record e { mac = mac } ∷ es)
    else elim rest [ none ↦ none | some es' ↦ some (e ∷ es') ]

-- The second loop: the first entry without an address is taken, or nothing is.
unfoldable pub added : ℕ → Mac → List ArpEntry → List ArpEntry
added ip mac [] = []
added ip mac (e ∷ es) =
    let rest = added ip mac es in
    if e.ip == 0 then record e { ip = ip; mac = mac } ∷ es else e ∷ rest

unfoldable pub learn : ℕ → Mac → List ArpEntry → List ArpEntry
unfolding renewed added
learn ip mac cache = elim (renewed ip mac cache) [
  | some cache' ↦ cache'
  | none ↦ added ip mac cache
]

unfoldable pub handle_arp : Bytes → ℕ → Net → Net
unfolding learn arp_frame
handle_arp f len s =
    let opcode = htons (read16 f 20) in
    let sender_mac = read_mac f 22 in
    let sender_ip = read32 f 28 in
    if ltb len 42
    then s
    else if opcode == 2
    then record s { arp_cache = learn sender_ip sender_mac s.arp_cache }
    else if (opcode == 1) && (read32 f 38 == s.local_ip)
    then (if s.nic_send then send_frame (arp_frame sender_mac 2 sender_mac sender_ip s) s else s)
    else s
