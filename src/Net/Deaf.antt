-- ===== src/Net/Deaf.antt =====
-- src/net/net.c: no socket is ever given a receive buffer, so that nothing is received on any.
use cro_os.Base.{
  ℕ, zero, suc, ◌+◌, ◌-◌, ◌≡◌, refl, sym, subst, ◌∙◌, List, [], ◌∷◌, none, some, get_or, set, arith,
  Bool-cases, Option-cases, inl, inr, ltb, ◌==◌, ◌!=◌, ◌&&◌, replicate,
}
use cro_os.Mm.Kmalloc.{Heap, kmalloc, kfree}
use cro_os.Net.{
  htons, eth_type_arp, eth_type_ip, swapped16, read16, read32, Bytes, Mac, Socket, Net, zero_socket,
}
use cro_os.Net.Arp.{arp_find, send_arp_request, handle_arp}
use cro_os.Net.Receive.{
  net_receive_frame, receive_ip, handle_icmp, handle_tcp, handle_udp, on_socket, tcp_segment,
  deliver, send_reply, free_reply,
}

-- No buffer, and so no bytes that wait.
pub record IsDeaf (x : Socket) : Type 0 where
  pub no_buf : x.recv_buf ≡ 0
  pub no_len : x.recv_len ≡ 0

abbrev pub AreDeaf : List Socket → Type 0
AreDeaf [] = Unit
AreDeaf (x ∷ xs) = IsDeaf x × AreDeaf xs

pub zero-IsDeaf : IsDeaf zero_socket
zero-IsDeaf = record { no_buf = refl; no_len = refl }

pub replicate-AreDeaf : (n : ℕ) → AreDeaf (replicate n zero_socket)
replicate-AreDeaf zero = tt
replicate-AreDeaf (suc n) = (zero-IsDeaf, replicate-AreDeaf n)

pub set-AreDeaf :
    (xs : List Socket) (i : ℕ) (x : Socket) → AreDeaf xs → IsDeaf x → AreDeaf (set xs i x)
set-AreDeaf [] i x h k = tt
set-AreDeaf (y ∷ ys) zero x (h, hs) k = (k, hs)
set-AreDeaf (y ∷ ys) (suc i) x (h, hs) k = (h, set-AreDeaf ys i x hs k)

pub get_or-IsDeaf : (xs : List Socket) (i : ℕ) → AreDeaf xs → IsDeaf (get_or xs i zero_socket)
get_or-IsDeaf [] i h = zero-IsDeaf
get_or-IsDeaf (y ∷ ys) zero (h, hs) = h
get_or-IsDeaf (y ∷ ys) (suc i) (h, hs) = get_or-IsDeaf ys i hs

deliver-deaf :
    (f : Bytes) (off n : ℕ) (x : Socket) (h : Heap) → IsDeaf x → deliver f off n x h ≡ (x, h)
unfolding deliver
deliver-deaf f off n x h d = ground (arith, d.no_buf)

deliver-IsDeaf :
    (f : Bytes) (off n : ℕ) (x : Socket) (h : Heap) → IsDeaf x → IsDeaf (deliver f off n x h).0
deliver-IsDeaf f off n x h d = rw (deliver-deaf f off n x h d) d

tcp_segment-IsDeaf :
    (f : Bytes) (len : ℕ) (x : Socket) (h : Heap) → IsDeaf x → IsDeaf (tcp_segment f len x h).0
unfolding tcp_segment deliver
tcp_segment-IsDeaf f len x h d = record {
  no_buf = ground (arith, d.no_buf, d.no_len);
  no_len = ground (arith, d.no_buf, d.no_len);
}

on_socket-AreDeaf :
    (kind port : ℕ) (serve : Socket → Heap → Socket × Heap)
    → ((x : Socket) (h : Heap) → IsDeaf x → IsDeaf (serve x h).0)
    → (xs : List Socket) (h : Heap) → AreDeaf xs
    → AreDeaf (on_socket kind port serve xs h).0
unfolding on_socket
on_socket-AreDeaf kind port serve keeps [] h d = tt
on_socket-AreDeaf kind port serve keeps (x ∷ xs) h (d, ds) =
    elim (Bool-cases (x.in_use && ((x.local_port == port) && (x.kind == kind)))) [
      | inl e ↦ rw e (keeps x h d, ds)
      | inr e ↦ rw e (d, on_socket-AreDeaf kind port serve keeps xs h ds)
    ]

-- A stack in which no socket has a buffer.
abbrev pub IsQuiet : Net → Type 0
IsQuiet s = AreDeaf s.sockets

handle_tcp-IsQuiet : (f : Bytes) (len : ℕ) (s : Net) → IsQuiet s → IsQuiet (handle_tcp f len s)
unfolding handle_tcp
handle_tcp-IsQuiet f len s q = elim (Bool-cases (ltb len 54)) [
  | inl b ↦ rw b q
  | inr b ↦
      rw b (on_socket-AreDeaf 1 _ (tcp_segment f len) (tcp_segment-IsDeaf f len) s.sockets s.heap q)
]

handle_udp-IsQuiet : (f : Bytes) (len : ℕ) (s : Net) → IsQuiet s → IsQuiet (handle_udp f len s)
unfolding handle_udp
handle_udp-IsQuiet f len s q = elim (Bool-cases (ltb len 42)) [
  | inl b ↦ rw b q
  | inr b ↦ rw b (
      on_socket-AreDeaf 2 _ (deliver f 42 (len - 42))
        (λ x h d. deliver-IsDeaf f 42 (len - 42) x h d) s.sockets s.heap q)
]

pub sockets-send_arp_request : (ip : ℕ) (s : Net) → (send_arp_request ip s).sockets ≡ s.sockets
unfolding send_arp_request
sockets-send_arp_request ip s = ground arith

sockets-handle_arp : (f : Bytes) (len : ℕ) (s : Net) → (handle_arp f len s).sockets ≡ s.sockets
unfolding handle_arp
sockets-handle_arp f len s = ground arith

-- The sockets of what a handler leaves, if it comes to an end.
sockets-free_reply : (p : ℕ) (s t : Net) → free_reply p s ≡ some t → t.sockets ≡ s.sockets
unfolding free_reply
sockets-free_reply p s t e = elim (Option-cases (kfree p s.heap)) [
  | inl n ↦ ground (arith, n, e)
  | inr (h, n) ↦ ground (arith, n, e)
]

sockets-send_reply :
    (f : Bytes) (pkt_len p : ℕ) (mac : Mac) (s t : Net)
    → send_reply f pkt_len p mac s ≡ some t
    → t.sockets ≡ s.sockets
unfolding send_reply
sockets-send_reply f pkt_len p mac s t e = elim (Bool-cases (ltb pkt_len 24)) [
  | inl b ↦ let n : none ≡ some t = rw b at e in cc
  | inr b ↦ let e' = rw b at e in sockets-free_reply p _ t e' ∙ ground arith
]

sockets-handle_icmp :
    (f : Bytes) (len : ℕ) (s t : Net) → handle_icmp f len s ≡ some t → t.sockets ≡ s.sockets
unfolding handle_icmp
sockets-handle_icmp f len s t e = elim (Bool-cases (ltb len 42)) [
  | inl a ↦ ground (arith, a, e)
  | inr a ↦ elim (Bool-cases (f 34 != 8)) [
    | inl b ↦ ground (arith, a, b, e)
    | inr b ↦ elim (Bool-cases ((kmalloc (swapped16 (read16 f 16) + 14) s.heap).0 == 0)) [
      | inl c ↦ ground (arith, a, b, c, e)
      | inr c ↦ elim (Option-cases (arp_find (read32 f 26) s.arp_cache)) [
        | inl d ↦
            let e' = rw (a, b, c, d) at e in
            sockets-free_reply _ _ t e' ∙ sockets-send_arp_request (read32 f 26) _
        | inr (mac, d) ↦
            let e' = rw (a, b, c, d) at e in
            sockets-send_reply f (swapped16 (read16 f 16))
              (kmalloc (swapped16 (read16 f 16) + 14) s.heap).0 mac
              (record s { heap = (kmalloc (swapped16 (read16 f 16) + 14) s.heap).1 }) t e'
      ]
    ]
  ]
]

pub IsQuiet-same : (s t : Net) → t.sockets ≡ s.sockets → IsQuiet s → IsQuiet t
IsQuiet-same s t e q = subst AreDeaf (sym e) q

pub some-IsQuiet : (s u : Net) → IsQuiet s → some s ≡ some u → IsQuiet u
some-IsQuiet s u q e = let e' : s ≡ u = cc in subst IsQuiet e' q

receive_ip-IsQuiet :
    (f : Bytes) (len : ℕ) (s t : Net) → IsQuiet s → receive_ip f len s ≡ some t → IsQuiet t
unfolding receive_ip
receive_ip-IsQuiet f len s t q e = elim (Bool-cases (f 23 == 1)) [
  | inl a ↦ IsQuiet-same s t (sockets-handle_icmp f len s t (rw a at e)) q
  | inr a ↦ elim (Bool-cases (f 23 == 6)) [
    | inl b ↦ some-IsQuiet (handle_tcp f len s) t (handle_tcp-IsQuiet f len s q) (rw (a, b) at e)
    | inr b ↦ elim (Bool-cases (f 23 == 17)) [
      | inl c ↦
          some-IsQuiet (handle_udp f len s) t (handle_udp-IsQuiet f len s q) (rw (a, b, c) at e)
      | inr c ↦ some-IsQuiet s t q (rw (a, b, c) at e)
    ]
  ]
]

pub net_receive_frame-IsQuiet :
    (f : Bytes) (len : ℕ) (s t : Net) → IsQuiet s → net_receive_frame f len s ≡ some t → IsQuiet t
unfolding net_receive_frame
net_receive_frame-IsQuiet f len s t q e = elim (Bool-cases (ltb len 14)) [
  | inl a ↦ some-IsQuiet s t q (rw a at e)
  | inr a ↦ elim (Bool-cases (htons (read16 f 12) == eth_type_arp)) [
    | inl b ↦
        some-IsQuiet (handle_arp f len s) t
          (IsQuiet-same s (handle_arp f len s) (sockets-handle_arp f len s) q) (rw (a, b) at e)
    | inr b ↦ elim (Bool-cases (htons (read16 f 12) == eth_type_ip)) [
      | inl c ↦ receive_ip-IsQuiet f len s t q (rw (a, b, c) at e)
      | inr c ↦ some-IsQuiet s t q (rw (a, b, c) at e)
    ]
  ]
]
