-- ===== src/Net/Tests.antt =====
-- Runs of src/net/net.c.
use cro_os.Base.{
  ℕ, ◌*◌, ◌+◌, ◌<◌, ◌==◌, if◌then◌else◌, ◌≡◌, ◌≢◌, refl, arith, [], ◌∷◌, get_or, some, true, pos,
}
use cro_os.Base.Digits.{digits}
use cro_os.Libc.Numbers.{itoa, unsigned_text, put_digits}
use cro_os.Mm.Kmalloc.{Heap}
use cro_os.Net.{
  Bytes, Mac, Socket, Net, zero_socket, zero_mac, net_ip_from_string, ip_from, htonl,
  net_ip_to_string, net_init, swapped16,
}
use cro_os.Net.Arp.{arp_find, send_arp_request, handle_arp, arp_frame, broadcast}
use cro_os.Net.Receive.{net_receive_frame, echo_reply}
use cro_os.Net.Sockets.{net_socket, net_recv, open_socket, free_socket, waits}
use cro_os.Net.Checksum.{pkt_len_of, IsReply, echo_reply_lem}
use cro_os.Net.Addresses.{net_ip_from_string-net_ip_to_string}
use cro_os.Net.Resolve.{vacant, received, arp_exchange}
use cro_os.Net.Tcp.{serving, IsSegment, requested, IsConnected}
use cro_os.Net.Handshake.{handshake}
use cro_os.Net.Silent.{begin, after, socket_call, net_recv-net_init}

abbrev heap : Heap
heap = record {
  blocks = [];
  heap_current = 0x40_0000;
  memory = λ x. 0;
  pmm = record { bitmap = []; total_pages = 0; used_pages = 0 };
}

abbrev mac_of : ℕ → Mac
mac_of n = record { mac_0 = 0x52; mac_1 = 0x54; mac_2 = 0; mac_3 = 0x12; mac_4 = 0x34; mac_5 = n }

-- A TCP socket with the port 1024.
abbrev listener : Socket
listener = record zero_socket { in_use = true; kind = 1; local_port = 1024 }

abbrev machine : ℕ → Net
machine n = record {
  local_mac = mac_of n;
  local_ip = n;
  gateway_ip = 0;
  subnet_mask = 0;
  sockets = zero_socket ∷ listener ∷ [];
  arp_cache = record { ip = 0; mac = zero_mac; expiry = 0 } ∷ [];
  nic_send = true;
  frames = [];
  heap = heap;
}

address : net_ip_from_string (49 ∷ 48 ∷ 46 ∷ 48 ∷ 46 ∷ 50 ∷ 46 ∷ 49 ∷ 53 ∷ []) ≡ 0x0f02000a
unfolding net_ip_from_string ip_from htonl
address = refl

address_text : net_ip_to_string 0x0f02000a ≡ 49 ∷ 48 ∷ 46 ∷ 48 ∷ 46 ∷ 50 ∷ 46 ∷ 49 ∷ 53 ∷ []
unfolding net_ip_to_string htonl itoa unsigned_text put_digits digits
address_text = refl

-- A length of 84 is read as 84 + 84 * 65536.
length_84 : swapped16 (84 * 256) ≡ 5505108
length_84 = refl

-- An echo request of 256 bytes, whose length field the code reads right.
abbrev ping : Bytes
ping i = if i == 17 then 0 else if i == 34 then 8 else 1

ping-byte : (k : ℕ) → ping k < 256
ping-byte k = ground arith

ping_length : pkt_len_of ping ≡ 256
ping_length = refl

echo_reply_lem_example :
    IsReply ping
      (pkt_len_of ping)
      (machine 2)
      (echo_reply ping (pkt_len_of ping) (mac_of 1) (machine 2))
    × (pkt_len_of ping ≡ 256 * ping 16 + 65537 * ping 17)
echo_reply_lem_example =
    echo_reply_lem ping (mac_of 1) (machine 2) ping-byte (omega arith) (omega arith)

arp_exchange_example :
    (send_arp_request 2 (machine 1)
      ≡ record (machine 1) { frames = arp_frame broadcast 1 zero_mac 2 (machine 1) ∷ [] })
    × (handle_arp (received (arp_frame broadcast 1 zero_mac 2 (machine 1))) 42 (machine 2)
        ≡ record (machine 2) { frames = arp_frame (mac_of 1) 2 (mac_of 1) 1 (machine 2) ∷ [] })
    × (arp_find 2
          (handle_arp
            (received (arp_frame (mac_of 1) 2 (mac_of 1) 1 (machine 2)))
            42
            (machine 1)).arp_cache
        ≡ some (mac_of 2))
arp_exchange_example =
    arp_exchange (machine 1) (machine 2) refl refl (omega arith) (omega arith) (vacant _ _ refl)

-- A segment for the port 1024 with flags; all other bytes are 0.
abbrev segment : ℕ → Bytes
segment flags i =
    get_or
      (0 ∷ 0 ∷ 0 ∷ 0 ∷ 0 ∷ 0 ∷ 0 ∷ 0 ∷ 0 ∷ 0 ∷ 0 ∷ 0 ∷ 8 ∷ 0 ∷ 0 ∷ 0 ∷ 0 ∷ 0 ∷ 0 ∷ 0 ∷ 0 ∷ 0 ∷ 0 ∷ 6
        ∷ 0 ∷ 0 ∷ 0 ∷ 0 ∷ 0 ∷ 0 ∷ 0 ∷ 0 ∷ 0 ∷ 0 ∷ 0 ∷ 0 ∷ 4 ∷ 0 ∷ 0 ∷ 0 ∷ 0 ∷ 0 ∷ 0 ∷ 0 ∷ 0 ∷ 0 ∷ 80
        ∷ flags ∷ [])
      i 0

segment-IsSegment : (flags : ℕ) → IsSegment (segment flags) 54 1024
segment-IsSegment flags = record {
  is_ip = refl;
  is_tcp = refl;
  is_for = refl;
  is_whole = omega arith;
}

handshake_example :
    (t : Net) × (u : Net) × (net_receive_frame (segment 2) 54 (machine 1) ≡ some t)
    × (net_receive_frame (segment 16) 54 t ≡ some u)
    × IsConnected (requested (segment 2) listener) (get_or u.sockets 1 zero_socket)
    × ((j : ℕ) → 1 ≢ j → get_or u.sockets j zero_socket ≡ get_or (machine 1).sockets j zero_socket)
unfolding serving
handshake_example =
    handshake (segment 2) (segment 16) 54 54 1024 (machine 1) 1 (segment-IsSegment 2)
      (segment-IsSegment 16) refl refl refl refl

abbrev with_socket : Net
with_socket = (net_socket 1 (net_init (machine 1))).1

one_open : open_socket (pos 0) with_socket ≡ some 0
unfolding net_socket net_init free_socket open_socket
one_open = refl

net_recv-net_init_example : net_recv (pos 0) 100 with_socket ≡ waits
net_recv-net_init_example =
    net_recv-net_init (machine 1) with_socket (after _ _ begin (socket_call 1)) (pos 0) 100 0
      one_open

net_ip_from_string-net_ip_to_string_example :
    net_ip_from_string (net_ip_to_string 0x0f02000a) ≡ 0x0f02000a
net_ip_from_string-net_ip_to_string_example =
    net_ip_from_string-net_ip_to_string 0x0f02000a (omega arith)
