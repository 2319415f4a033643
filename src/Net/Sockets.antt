-- ===== src/Net/Sockets.antt =====
-- src/net/net.c: the calls on sockets. A descriptor is an `int`.
use cro_os.Base.{
  ℕ, ◌+◌, true, false, ◌==◌, if◌then◌else◌, List, [], ◌∷◌, Option, none, some, ℤ, pos, minus_one,
  signed32, slot, get_or, set, min,
}
use cro_os.Mm.Kmalloc.{kfree}
use cro_os.Net.{Socket, Net, zero_socket, htons, net_max_sockets}
use cro_os.Net.Arp.{send_arp_request}
use cro_os.Net.Receive.{slice, tcp_state_closed, tcp_state_syn_sent}

-- The first socket from `i` on that is not in use.
unfoldable pub free_socket : ℕ → List Socket → Option ℕ
free_socket i [] = none
free_socket i (x ∷ xs) = let rest = free_socket (i + 1) xs in if x.in_use then rest else some i

unfoldable pub net_socket : ℕ → Net → ℤ × Net
unfolding free_socket
net_socket kind s = elim (free_socket 0 s.sockets) [
  | none ↦ (minus_one, s)
  | some i ↦ (
    pos i,
    record s {
      sockets = set s.sockets i (record zero_socket {
        in_use = true;
        kind = kind;
        state = tcp_state_closed;
        local_port = 1024 + i;
      });
    },
  )
]

-- The index of a descriptor that is in use.
unfoldable pub open_socket : ℤ → Net → Option ℕ
open_socket fd s = elim (slot net_max_sockets fd) [
  | none ↦ none
  | some i ↦ if (get_or s.sockets i zero_socket).in_use then some i else none
]

unfoldable pub net_connect : ℤ → ℕ → ℕ → Net → ℤ × Net
unfolding open_socket send_arp_request
net_connect fd ip port s = elim (open_socket fd s) [
  | none ↦ (minus_one, s)
  | some i ↦
      let s' = send_arp_request ip s in
      (
        pos 0,
        record s' {
          sockets = set s.sockets i (record (get_or s.sockets i zero_socket) {
            remote_ip = ip;
            remote_port = htons port;
            state = tcp_state_syn_sent;
          });
        },
      )
]

unfoldable pub net_send : ℤ → ℕ → Net → ℤ
unfolding open_socket
net_send fd len s = elim (open_socket fd s) [ none ↦ minus_one | some i ↦ signed32 len ]

-- A call of `net_recv` waits, or returns a value with the bytes copied.
pub data Received : Type 0 where
  waits : Received
  returns : ℤ → List ℕ → Net → Received

unfoldable pub net_recv : ℤ → ℕ → Net → Received
unfolding open_socket slice
net_recv fd len s = elim (open_socket fd s) [
  | none ↦ returns minus_one [] s
  | some i ↦
      let x = get_or s.sockets i zero_socket in
      let to_copy = min x.recv_len len in
      if x.recv_len == 0
      then waits
      else returns (signed32 to_copy) (slice s.heap.memory x.recv_buf to_copy)
          (record s { sockets = set s.sockets i (record x { recv_len = 0 }) })
]

unfoldable pub net_close : ℤ → Net → Option (ℤ × Net)
unfolding open_socket
net_close fd s = elim (open_socket fd s) [
  | none ↦ some (minus_one, s)
  | some i ↦
      let x = get_or s.sockets i zero_socket in
      let s' = record s { sockets = set s.sockets i (record x { in_use = false }) } in
      if x.recv_buf == 0 then some (pos 0, s') else elim (kfree x.recv_buf s.heap) [
        | none ↦ none
        | some h ↦ some (pos 0, record s' { heap = h })
      ]
]

unfoldable pub net_ping : ℕ → Net → Net
unfolding send_arp_request
net_ping ip s = send_arp_request ip s
