-- ===== src/Net/Receive.antt =====
-- src/net/net.c: what a received frame does. `none` is a write behind the end of an allocated block.
-- The offsets are those of the headers: Ethernet 0, IP 14, and ICMP, TCP and UDP 34.
use cro_os.Base.{
  ℕ, zero, suc, ◌+◌, ◌-◌, ◌*◌, ◌/◌, ◌%◌, ◌^◌, bit_and, ltb, leb, ◌==◌, ◌!=◌, ◌&&◌, not,
  if◌then◌else◌, List, [], ◌∷◌, ◌++◌, Option, none, some, get_or, length,
}
use cro_os.Mm.Kmalloc.{Heap, kmalloc, kfree}
use cro_os.Net.{
  Bytes, Mac, Socket, Net, swapped16, htons, htonl, le16, le32, read16, read32, net_checksum,
  send_frame, eth_type_ip, eth_type_arp, ip_proto_tcp,
}
use cro_os.Net.Arp.{arp_find, send_arp_request, handle_arp, eth_header}

-- The `n` bytes of a frame from the offset `i` on.
unfoldable pub slice : Bytes → ℕ → ℕ → List ℕ
slice f i zero = []
slice f i (suc n) = f i ∷ slice f (i + 1) n

-- `memcpy` of `n` bytes, from the offset `off` of a frame, to the address `dst`.
unfoldable pub copied_in : Bytes → ℕ → ℕ → ℕ → Heap → Heap
copied_in f off dst n h = record h {
  memory = λ x. if leb dst x && ltb x (dst + n) then f (off + (x - dst)) else h.memory x;
}

abbrev pub tcp_flag_syn : ℕ
tcp_flag_syn = 0x02

abbrev pub tcp_flag_ack : ℕ
tcp_flag_ack = 0x10

abbrev pub sock_tcp : ℕ
sock_tcp = 1

abbrev pub sock_udp : ℕ
sock_udp = 2

abbrev pub tcp_state_closed : ℕ
tcp_state_closed = 0

abbrev pub tcp_state_syn_sent : ℕ
tcp_state_syn_sent = 2

abbrev pub tcp_state_syn_rcvd : ℕ
tcp_state_syn_rcvd = 3

abbrev pub tcp_state_established : ℕ
tcp_state_established = 4

abbrev pub ip_proto_icmp : ℕ
ip_proto_icmp = 1

abbrev pub ip_proto_udp : ℕ
ip_proto_udp = 17

-- The IP header of the reply: the request's, with the addresses and the checksum set.
unfoldable pub reply_ip_header : Bytes → Net → List ℕ
unfolding slice net_checksum
reply_ip_header f s =
    let before = slice f 14 10 in
    let addresses = le32 s.local_ip ++ le32 (read32 f 26) in
    before ++ (le16 (net_checksum (before ++ (0 ∷ 0 ∷ addresses))) ++ addresses)

-- The ICMP part of `n` bytes, at least 4: the request's, with the type and the checksum set.
unfoldable pub reply_icmp : Bytes → ℕ → List ℕ
unfolding slice net_checksum
reply_icmp f n =
    let rest = slice f 38 (n - 4) in
    0 ∷ f 35 ∷ (le16 (net_checksum (0 ∷ f 35 ∷ 0 ∷ 0 ∷ rest)) ++ rest)

unfoldable pub echo_reply : Bytes → ℕ → Mac → Net → List ℕ
unfolding reply_ip_header reply_icmp
echo_reply f pkt_len dst_mac s =
    eth_header dst_mac s.local_mac eth_type_ip
    ++ (reply_ip_header f s ++ reply_icmp f (pkt_len - 20))

-- `kfree(p)`
unfoldable pub free_reply : ℕ → Net → Option Net
free_reply p s = elim (kfree p s.heap) [ none ↦ none | some h ↦ some (record s { heap = h }) ]

-- The reply in the block at `p`, once the sender's hardware address is known.
unfoldable pub send_reply : Bytes → ℕ → ℕ → Mac → Net → Option Net
unfolding echo_reply free_reply copied_in
send_reply f pkt_len p dst_mac s =
    let frame = echo_reply f pkt_len dst_mac s in
    let written = record s { heap = copied_in (λ i. get_or frame i 0) 0 p (length frame) s.heap } in
    if ltb pkt_len 24
    then none
    else free_reply p (if s.nic_send then send_frame frame written else written)

unfoldable pub handle_icmp : Bytes → ℕ → Net → Option Net
unfolding send_arp_request arp_find send_reply free_reply
handle_icmp f len s =
    let pkt_len = swapped16 (read16 f 16) in
    let (p, h) = kmalloc (pkt_len + 14) s.heap in
    let s' = record s { heap = h } in
    if ltb len 42
    then some s
    else if f 34 != 8
    then some s
    else if p == 0
    then some s'
    else elim (arp_find (read32 f 26) s.arp_cache) [
      | none ↦ free_reply p (send_arp_request (read32 f 26) s')
      | some dst_mac ↦ send_reply f pkt_len p dst_mac s'
    ]

-- The bytes of the frame from `off` on, which `len` says how many of, for a socket with a buffer.
unfoldable pub deliver : Bytes → ℕ → ℕ → Socket → Heap → Socket × Heap
unfolding copied_in
deliver f off data_len x h =
    if ltb 0 data_len && (x.recv_buf != 0)
    then (record x { recv_len = data_len }, copied_in f off x.recv_buf data_len h)
    else (x, h)

-- The socket behind a segment that is for it.
unfoldable pub tcp_segment : Bytes → ℕ → Socket → Heap → Socket × Heap
unfolding deliver htonl
tcp_segment f len x h =
    let syn = bit_and (f 47) tcp_flag_syn != 0 in
    let ack = bit_and (f 47) tcp_flag_ack != 0 in
    let off = 34 + f 46 / 16 * 4 in
    let accepted =
      if x.state == tcp_state_syn_rcvd then record x { state = tcp_state_established } else x in
    if syn && not ack
    then (
      record x {
        state = tcp_state_syn_rcvd;
        remote_port = read16 f 34;
        remote_ip = read32 f 26;
        ack_seq = (htonl (read32 f 38) + 1) % 2 ^ 32;
        seq = 1000;
      },
      h,
    )
    else if ack
    then deliver f off ((len + 2 ^ 32 - off) % 2 ^ 32) accepted h
    else (x, h)

-- The loop over the sockets: the first in use with the port and the type is served.
unfoldable pub on_socket :
    ℕ → ℕ → (Socket → Heap → Socket × Heap) → List Socket → Heap → List Socket × Heap
on_socket kind port serve [] h = ([], h)
on_socket kind port serve (x ∷ xs) h =
    let (ys, h₁) = on_socket kind port serve xs h in
    let (y, h₂) = serve x h in
    if x.in_use && ((x.local_port == port) && (x.kind == kind)) then (y ∷ xs, h₂) else (x ∷ ys, h₁)

unfoldable pub handle_tcp : Bytes → ℕ → Net → Net
unfolding on_socket tcp_segment
handle_tcp f len s =
    let (xs, h) = on_socket sock_tcp (htons (read16 f 36)) (tcp_segment f len) s.sockets s.heap in
    if ltb len 54 then s else record s { sockets = xs; heap = h }

unfoldable pub handle_udp : Bytes → ℕ → Net → Net
unfolding on_socket deliver
handle_udp f len s =
    let (xs, h) =
      on_socket sock_udp (htons (read16 f 36)) (deliver f 42 (len - 42)) s.sockets s.heap in
    if ltb len 42 then s else record s { sockets = xs; heap = h }

unfoldable pub receive_ip : Bytes → ℕ → Net → Option Net
unfolding handle_icmp handle_tcp handle_udp
receive_ip f len s =
    if f 23 == ip_proto_icmp
    then handle_icmp f len s
    else if f 23 == ip_proto_tcp
    then some (handle_tcp f len s)
    else if f 23 == ip_proto_udp
    then some (handle_udp f len s)
    else some s

unfoldable pub net_receive_frame : Bytes → ℕ → Net → Option Net
unfolding receive_ip handle_arp
net_receive_frame f len s =
    let kind = htons (read16 f 12) in
    if ltb len 14
    then some s
    else if kind == eth_type_arp
    then some (handle_arp f len s)
    else if kind == eth_type_ip
    then receive_ip f len s
    else some s
