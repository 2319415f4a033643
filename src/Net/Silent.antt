-- ===== src/Net/Silent.antt =====
-- src/net/net.c: whatever happens on the network and whichever calls are made, a read waits.
use cro_os.Base.{
  ℕ, ◌≡◌, refl, List, some, get_or, set, arith, false, Bool, Option-cases, inl, inr, ℤ, subst, sym,
}
use cro_os.Net.{Bytes, Net, net_init, net_set_nic_send, zero_socket}
use cro_os.Net.Receive.{net_receive_frame}
use cro_os.Net.Sockets.{
  net_socket, net_connect, net_recv, net_close, net_ping, open_socket, free_socket, waits, returns,
}
use cro_os.Net.Deaf.{
  AreDeaf, IsQuiet, replicate-AreDeaf, set-AreDeaf, get_or-IsDeaf, net_receive_frame-IsQuiet,
  IsQuiet-same, sockets-send_arp_request,
}

-- What may happen to the stack: a frame arrives, or a call is made and returns.
pub data Step (s : Net) : Net → Type 0 where
  frame_arrives : (f : Bytes) (len : ℕ) (t : Net) → net_receive_frame f len s ≡ some t → Step s t
  socket_call : (kind : ℕ) → Step s (net_socket kind s).1
  connect_call : (fd : ℤ) (ip port : ℕ) → Step s (net_connect fd ip port s).1
  ping_call : (ip : ℕ) → Step s (net_ping ip s)
  recv_call :
      (fd : ℤ) (len : ℕ) (v : ℤ) (bytes : List ℕ) (t : Net)
      → net_recv fd len s ≡ returns v bytes t
      → Step s t
  close_call : (fd v : ℤ) (t : Net) → net_close fd s ≡ some (v, t) → Step s t
  card_set : (present : Bool) → Step s (net_set_nic_send present s)

pub data Reach (s : Net) : Net → Type 0 where
  begin : Reach s s
  after : (t u : Net) → Reach s t → Step t u → Reach s u

net_init-IsQuiet : (s : Net) → IsQuiet (net_init s)
unfolding net_init
net_init-IsQuiet s = replicate-AreDeaf 32

net_socket-IsQuiet : (kind : ℕ) (s : Net) → IsQuiet s → IsQuiet (net_socket kind s).1
unfolding net_socket
net_socket-IsQuiet kind s q = elim (Option-cases (free_socket 0 s.sockets)) [
  | inl e ↦ rw (e, net_socket) q
  | inr (i, e) ↦
      rw (e, net_socket) (set-AreDeaf s.sockets i _ q (record { no_buf = refl; no_len = refl }))
]

net_connect-IsQuiet :
    (fd : ℤ) (ip port : ℕ) (s : Net) → IsQuiet s → IsQuiet (net_connect fd ip port s).1
unfolding net_connect
net_connect-IsQuiet fd ip port s q = elim (Option-cases (open_socket fd s)) [
  | inl e ↦ rw (e, net_connect) q
  | inr (i, e) ↦
      let d = get_or-IsDeaf s.sockets i q in
      rw (e, net_connect)
        (set-AreDeaf s.sockets i _ q (record { no_buf = d.no_buf; no_len = d.no_len }))
]

-- On a quiet stack a read of an open socket waits.
net_recv-waits :
    (fd : ℤ) (len i : ℕ) (s : Net)
    → IsQuiet s
    → open_socket fd s ≡ some i
    → net_recv fd len s ≡ waits
unfolding net_recv
net_recv-waits fd len i s q e = let d = get_or-IsDeaf s.sockets i q in ground (arith, e, d.no_len)

recv_call-IsQuiet :
    (fd : ℤ) (len : ℕ) (v : ℤ) (bytes : List ℕ) (s t : Net)
    → IsQuiet s
    → net_recv fd len s ≡ returns v bytes t
    → IsQuiet t
unfolding net_recv
recv_call-IsQuiet fd len v bytes s t q h = elim (Option-cases (open_socket fd s)) [
  | inl e ↦ let same : s ≡ t = ground (arith, e, h) in subst IsQuiet same q
  | inr (i, e) ↦ let w = net_recv-waits fd len i s q e in cc
]

net_close-IsQuiet : (fd v : ℤ) (s t : Net) → IsQuiet s → net_close fd s ≡ some (v, t) → IsQuiet t
unfolding net_close
net_close-IsQuiet fd v s t q h = elim (Option-cases (open_socket fd s)) [
  | inl e ↦ let same : s ≡ t = ground (arith, e, h) in subst IsQuiet same q
  | inr (i, e) ↦
      let d = get_or-IsDeaf s.sockets i q in
      let x = record (get_or s.sockets i zero_socket) { in_use = false } in
      let same : t.sockets ≡ set s.sockets i x = ground (arith, e, h, d.no_buf) in
      subst AreDeaf (sym same)
        (set-AreDeaf s.sockets i x q (record { no_buf = d.no_buf; no_len = d.no_len }))
]

Step-IsQuiet : (s t : Net) → Step s t → IsQuiet s → IsQuiet t
unfolding net_ping net_set_nic_send
Step-IsQuiet s t (frame_arrives f len t' e) q = net_receive_frame-IsQuiet f len s t q e
Step-IsQuiet s t (socket_call kind) q = net_socket-IsQuiet kind s q
Step-IsQuiet s t (connect_call fd ip port) q = net_connect-IsQuiet fd ip port s q
Step-IsQuiet s t (ping_call ip) q = IsQuiet-same s (net_ping ip s) (sockets-send_arp_request ip s) q
Step-IsQuiet s t (recv_call fd len v bytes t' e) q = recv_call-IsQuiet fd len v bytes s t q e
Step-IsQuiet s t (close_call fd v t' e) q = net_close-IsQuiet fd v s t q e
Step-IsQuiet s t (card_set present) q = q

Reach-IsQuiet : (s t : Net) → Reach s t → IsQuiet s → IsQuiet t
Reach-IsQuiet s t begin q = q
Reach-IsQuiet s t (after u t' r e) q = Step-IsQuiet u t e (Reach-IsQuiet s u r q)

-- From `net_init` on, in every order of frames that arrive and calls that return, a read of a socket
-- that is open waits for ever: no frame ever gives it a byte.
pub net_recv-net_init :
    (s t : Net)
    → Reach (net_init s) t
    → (fd : ℤ) (len i : ℕ) → open_socket fd t ≡ some i
    → net_recv fd len t ≡ waits
net_recv-net_init s t r fd len i e =
    net_recv-waits fd len i t (Reach-IsQuiet (net_init s) t r (net_init-IsQuiet s)) e
