-- ===== src/Net/Tcp.antt =====
-- src/net/net.c: the states of a TCP socket under the segments that arrive for it.
use cro_os.Base.{
  ℕ, zero, suc, ◌+◌, ◌%◌, ◌^◌, ◌≤◌, ◌<◌, bit_and, ◌≡◌, refl, ap, subst, ◌∙◌, List, [], ◌∷◌, Option,
  none, some, get_or, set, arith, true, false, Bool, Bool-cases, Option-cases, inl, inr, ◌==◌, ◌!=◌,
  ◌&&◌, length, if◌then◌else◌, le→ltb,
}
use cro_os.Mm.Kmalloc.{Heap}
use cro_os.Net.{
  Bytes, Socket, Net, zero_socket, htons, htonl, read16, read32, eth_type_ip, ip_proto_tcp,
}
use cro_os.Net.Receive.{
  net_receive_frame, receive_ip, handle_tcp, on_socket, tcp_segment, deliver, tcp_flag_syn,
  tcp_flag_ack, sock_tcp, tcp_state_established, tcp_state_syn_rcvd,
}

-- The socket that a segment is for: the first in use with its port and of its type.
unfoldable pub serving : ℕ → ℕ → List Socket → Option ℕ
serving kind port [] = none
serving kind port (x ∷ xs) =
    let rest = serving kind port xs in
    if x.in_use && ((x.local_port == port) && (x.kind == kind))
    then some 0
    else elim rest [ none ↦ none | some i ↦ some (suc i) ]

pub on_socket-serving :
    (kind port : ℕ) (serve : Socket → Heap → Socket × Heap) (xs : List Socket) (h : Heap) (i : ℕ)
    → serving kind port xs ≡ some i
    → (i < length xs)
      × (on_socket kind port serve xs h
          ≡ (set xs i (serve (get_or xs i zero_socket) h).0, (serve (get_or xs i zero_socket) h).1))
unfolding serving on_socket
on_socket-serving kind port serve [] h i e = cc
on_socket-serving kind port serve (x ∷ xs) h i e =
    elim (Bool-cases (x.in_use && ((x.local_port == port) && (x.kind == kind)))) [
      | inl b ↦
          let z : 0 ≡ i = ground (arith, b, e) in
          subst
            (λ j.
              (j < length (x ∷ xs))
              × (on_socket kind port serve (x ∷ xs) h ≡ (
                set (x ∷ xs) j (serve (get_or (x ∷ xs) j zero_socket) h).0,
                (serve (get_or (x ∷ xs) j zero_socket) h).1,
              )))
            z (omega arith, rw b refl)
      | inr b ↦ elim (Option-cases (serving kind port xs)) [
        | inl n ↦ ground (arith, b, n, e)
        | inr (k, n) ↦
            let z : suc k ≡ i = ground (arith, b, n, e) in
            let (lt, ih) = on_socket-serving kind port serve xs h k n in
            subst
              (λ j.
                (j < length (x ∷ xs))
                × (on_socket kind port serve (x ∷ xs) h ≡ (
                  set (x ∷ xs) j (serve (get_or (x ∷ xs) j zero_socket) h).0,
                  (serve (get_or (x ∷ xs) j zero_socket) h).1,
                )))
              z (omega arith, rw (b, ih) refl)
      ]
    ]

-- A frame of `len` bytes with a TCP segment for a port.
pub record IsSegment (f : Bytes) (len port : ℕ) : Type 0 where
  pub is_ip : htons (read16 f 12) ≡ eth_type_ip
  pub is_tcp : f 23 ≡ ip_proto_tcp
  pub is_for : htons (read16 f 36) ≡ port
  pub is_whole : 54 ≤ len

abbrev pub has_syn : Bytes → Bool
has_syn f = bit_and (f 47) tcp_flag_syn != 0

abbrev pub has_ack : Bytes → Bool
has_ack f = bit_and (f 47) tcp_flag_ack != 0

pub net_receive_frame-handle_tcp :
    (f : Bytes) (len port : ℕ) (s : Net)
    → IsSegment f len port
    → net_receive_frame f len s ≡ some (handle_tcp f len s)
unfolding net_receive_frame receive_ip
net_receive_frame-handle_tcp f len port s g = ground (arith, g.is_ip, g.is_tcp, g.is_whole)

-- The socket behind a SYN from the frame's sender.
abbrev pub requested : Bytes → Socket → Socket
requested f x = record x {
  state = tcp_state_syn_rcvd;
  remote_port = read16 f 34;
  remote_ip = read32 f 26;
  ack_seq = (htonl (read32 f 38) + 1) % 2 ^ 32;
  seq = 1000;
}

pub tcp_segment-syn :
    (f : Bytes) (len : ℕ) (x : Socket) (h : Heap)
    → has_syn f ≡ true
    → has_ack f ≡ false
    → tcp_segment f len x h ≡ (requested f x, h)
unfolding tcp_segment
tcp_segment-syn f len x h a b = ground (arith, a, b)

-- What a segment with an ACK leaves of a socket that has seen a SYN.
pub record IsConnected (x y : Socket) : Type 0 where
  pub established : y.state ≡ tcp_state_established
  pub same_port : y.remote_port ≡ x.remote_port
  pub same_ip : y.remote_ip ≡ x.remote_ip
  pub same_ack : y.ack_seq ≡ x.ack_seq
  pub same_seq : y.seq ≡ x.seq

pub tcp_segment-ack :
    (f : Bytes) (len : ℕ) (x : Socket) (h : Heap)
    → has_ack f ≡ true
    → x.state ≡ tcp_state_syn_rcvd
    → IsConnected x (tcp_segment f len x h).0
unfolding tcp_segment deliver
tcp_segment-ack f len x h a e = record {
  established = ground (arith, a, e);
  same_port = ground (arith, a, e);
  same_ip = ground (arith, a, e);
  same_ack = ground (arith, a, e);
  same_seq = ground (arith, a, e);
}

-- A socket that keeps its port and its type is served as before.
pub serving-set :
    (kind port : ℕ) (xs : List Socket) (i : ℕ) (y : Socket)
    → serving kind port xs ≡ some i
    → y.in_use ≡ (get_or xs i zero_socket).in_use
    → y.local_port ≡ (get_or xs i zero_socket).local_port
    → y.kind ≡ (get_or xs i zero_socket).kind
    → serving kind port (set xs i y) ≡ some i
unfolding serving
serving-set kind port [] i y e a b c = cc
serving-set kind port (x ∷ xs) zero y e a b c = ground (arith, e, a, b, c)
serving-set kind port (x ∷ xs) (suc i) y e a b c = elim (Option-cases (serving kind port xs)) [
  | inl n ↦ ground (arith, n, e)
  | inr (k, n) ↦ elim (Bool-cases (x.in_use && ((x.local_port == port) && (x.kind == kind)))) [
    | inl z ↦ ground (arith, z, e)
    | inr z ↦
        let q : k ≡ i = ground (arith, n, z, e) in
        ground (arith, z, serving-set kind port xs i y (n ∙ ap some q) a b c)
  ]
]

pub handle_tcp-serving :
    (f : Bytes) (len port : ℕ) (s : Net) (i : ℕ)
    → IsSegment f len port
    → serving sock_tcp port s.sockets ≡ some i
    → (handle_tcp f len s).sockets
      ≡ set s.sockets i (tcp_segment f len (get_or s.sockets i zero_socket) s.heap).0
unfolding handle_tcp
handle_tcp-serving f len port s i g e =
    let (lt, o) = on_socket-serving sock_tcp port (tcp_segment f len) s.sockets s.heap i e in
    rw (g.is_for, o, le→ltb len 54 g.is_whole) refl
