-- ===== src/Net/Handshake.antt =====
-- src/net/net.c: how a TCP connection is made.
use cro_os.Base.{
  ℕ, ◌<◌, ◌≡◌, ◌≢◌, refl, ap, subst, sym, ◌∙◌, some, get_or, set, true, false, length,
  get_or-set_self, get_or-set_ne,
}
use cro_os.Net.{Bytes, Net, zero_socket}
use cro_os.Net.Receive.{net_receive_frame, handle_tcp, tcp_segment, sock_tcp}
use cro_os.Net.Tcp.{
  serving, on_socket-serving, IsSegment, has_syn, has_ack, net_receive_frame-handle_tcp, requested,
  tcp_segment-syn, tcp_segment-ack, IsConnected, serving-set, handle_tcp-serving,
}

-- A SYN without an ACK and then an ACK, for the same port, which a TCP socket is the first to serve:
-- both frames are taken, the socket is then established with the sender's address, port and the number
-- behind its sequence number, and the other sockets are as they were.
pub handshake :
    (f g : Bytes) (n m port : ℕ) (s : Net) (i : ℕ)
    → IsSegment f n port
    → IsSegment g m port
    → has_syn f ≡ true
    → has_ack f ≡ false
    → has_ack g ≡ true
    → serving sock_tcp port s.sockets ≡ some i
    → (t : Net) × (u : Net) × (net_receive_frame f n s ≡ some t)
      × (net_receive_frame g m t ≡ some u)
      × IsConnected (requested f (get_or s.sockets i zero_socket)) (get_or u.sockets i zero_socket)
      × ((j : ℕ) → i ≢ j → get_or u.sockets j zero_socket ≡ get_or s.sockets j zero_socket)
handshake f g n m port s i sf sg a b c e =
    let x = get_or s.sockets i zero_socket in
    let y = requested f x in
    let t = handle_tcp f n s in
    let u = handle_tcp g m t in
    let inside : i < length s.sockets =
      (on_socket-serving sock_tcp port (tcp_segment f n) s.sockets s.heap i e).0 in
    let first : t.sockets ≡ set s.sockets i y =
      handle_tcp-serving f n port s i sf e
      ∙ ap (λ p. set s.sockets i p.0) (tcp_segment-syn f n x s.heap a b) in
    let e' : serving sock_tcp port t.sockets ≡ some i =
      subst (λ l. serving sock_tcp port l ≡ some i) (sym first)
        (serving-set sock_tcp port s.sockets i y e refl refl refl) in
    let at_i : get_or t.sockets i zero_socket ≡ y =
      ap (λ l. get_or l i zero_socket) first ∙ get_or-set_self s.sockets i y zero_socket inside in
    let z = (tcp_segment g m (get_or t.sockets i zero_socket) t.heap).0 in
    let second : u.sockets ≡ set t.sockets i z = handle_tcp-serving g m port t i sg e' in
    let inside' : i < length t.sockets =
      (on_socket-serving sock_tcp port (tcp_segment g m) t.sockets t.heap i e').0 in
    let at_u : get_or u.sockets i zero_socket ≡ z =
      ap (λ l. get_or l i zero_socket) second ∙ get_or-set_self t.sockets i z zero_socket inside' in
    let made : IsConnected y z =
      subst (λ q. IsConnected y (tcp_segment g m q t.heap).0) (sym at_i)
        (tcp_segment-ack g m y t.heap c refl) in
    (
      t,
      u,
      net_receive_frame-handle_tcp f n port s sf,
      net_receive_frame-handle_tcp g m port t sg,
      subst (λ q. IsConnected y q) (sym at_u) made,
      λ j ne.
          ap (λ l. get_or l j zero_socket) second
          ∙ get_or-set_ne t.sockets i j z zero_socket ne
          ∙ ap (λ l. get_or l j zero_socket) first
          ∙ get_or-set_ne s.sockets i j y zero_socket ne,
    )
