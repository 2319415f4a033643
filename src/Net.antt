-- ===== src/Net.antt =====
-- src/net/net.c and src/net/net.h: the state of the network stack, the bytes of packets, checksums
-- and addresses. A frame that is received is a function from offsets to bytes, with its length; a
-- frame that is sent is the list of its bytes, put behind those sent before. What the network card
-- does with it is not looked at: the code ignores the answer. Words are kept as the processor
-- reads them, lowest byte first.
pub mod Arp
pub mod Receive
pub mod Sockets
pub mod Checksum
pub mod Addresses
pub mod Resolve
pub mod Tcp
pub mod Handshake
pub mod Deaf
pub mod Silent
mod Tests
use cro_os.Base.{
  ℕ, zero, suc, ◌+◌, ◌-◌, ◌*◌, ◌/◌, ◌%◌, ◌^◌, bit_or, Bool, true, false, ltb, leb, ◌==◌, ◌!=◌, ◌&&◌,
  not, if◌then◌else◌, List, [], ◌∷◌, ◌++◌, Option, none, some, ℤ, pos, negsuc, length, replicate,
}
use cro_os.Mm.Kmalloc.{Heap}
use cro_os.Libc.Numbers.{itoa}

-- The bytes of a received frame; what lies behind its end is memory.
abbrev pub Bytes : Type 0
Bytes = ℕ → ℕ

-- `uint8_t mac[ETH_ALEN]`
pub record Mac : Type 0 where
  pub mac_0 : ℕ
  pub mac_1 : ℕ
  pub mac_2 : ℕ
  pub mac_3 : ℕ
  pub mac_4 : ℕ
  pub mac_5 : ℕ

pub record Socket : Type 0 where
  pub in_use : Bool
  pub kind : ℕ
  pub local_port : ℕ
  pub remote_port : ℕ
  pub remote_ip : ℕ
  pub state : ℕ
  pub seq : ℕ
  pub ack_seq : ℕ
  pub recv_buf : ℕ
  pub recv_len : ℕ

pub record ArpEntry : Type 0 where
  pub ip : ℕ
  pub mac : Mac
  pub expiry : ℕ

pub record Net : Type 0 where
  pub local_mac : Mac
  pub local_ip : ℕ
  pub gateway_ip : ℕ
  pub subnet_mask : ℕ
  pub sockets : List Socket
  pub arp_cache : List ArpEntry
  pub nic_send : Bool
  pub frames : List (List ℕ)
  pub heap : Heap

abbrev pub net_max_sockets : ℕ
net_max_sockets = 32

abbrev pub arp_cache_size : ℕ
arp_cache_size = 16

abbrev pub eth_type_ip : ℕ
eth_type_ip = 0x0800

abbrev pub eth_type_arp : ℕ
eth_type_arp = 0x0806

abbrev pub ip_proto_tcp : ℕ
ip_proto_tcp = 6

abbrev pub zero_mac : Mac
zero_mac = record { mac_0 = 0; mac_1 = 0; mac_2 = 0; mac_3 = 0; mac_4 = 0; mac_5 = 0 }

abbrev pub zero_socket : Socket
zero_socket = record {
  in_use = false;
  kind = 0;
  local_port = 0;
  remote_port = 0;
  remote_ip = 0;
  state = 0;
  seq = 0;
  ack_seq = 0;
  recv_buf = 0;
  recv_len = 0;
}

-- The macro on a 16-bit word is an `int` of up to 24 bits, of which a cast keeps 16. What it
-- joins by `|`, here and in `htonl`, has no bit in common, so that `|` is the sum.
abbrev pub swapped16 : ℕ → ℕ
swapped16 x = x / 256 + x * 256

abbrev pub htons : ℕ → ℕ
htons x = swapped16 x % 2 ^ 16

unfoldable pub htonl : ℕ → ℕ
htonl x = x / 2 ^ 24 + x / 2 ^ 16 % 256 * 2 ^ 8 + x / 2 ^ 8 % 256 * 2 ^ 16 + x % 256 * 2 ^ 24

abbrev pub le16 : ℕ → List ℕ
le16 w = (w % 256) ∷ (w / 256 % 256) ∷ []

abbrev pub le32 : ℕ → List ℕ
le32 w = (w % 256) ∷ (w / 256 % 256) ∷ (w / 2 ^ 16 % 256) ∷ (w / 2 ^ 24 % 256) ∷ []

abbrev pub mac_bytes : Mac → List ℕ
mac_bytes m = m.mac_0 ∷ m.mac_1 ∷ m.mac_2 ∷ m.mac_3 ∷ m.mac_4 ∷ m.mac_5 ∷ []

-- Words and addresses of a frame.
abbrev pub read16 : Bytes → ℕ → ℕ
read16 f i = f i + 256 * f (i + 1)

abbrev pub read32 : Bytes → ℕ → ℕ
read32 f i = f i + 256 * f (i + 1) + 2 ^ 16 * f (i + 2) + 2 ^ 24 * f (i + 3)

abbrev pub read_mac : Bytes → ℕ → Mac
read_mac f i = record {
  mac_0 = f i;
  mac_1 = f (i + 1);
  mac_2 = f (i + 2);
  mac_3 = f (i + 3);
  mac_4 = f (i + 4);
  mac_5 = f (i + 5);
}

-- The loops of the checksums, with the odd byte.
unfoldable pub sum_words : ℕ → List ℕ → ℕ
sum_words sum [] = sum
sum_words sum (b ∷ []) = (sum + b) % 2 ^ 32
sum_words sum (b ∷ c ∷ bs) = sum_words ((sum + (b + 256 * c)) % 2 ^ 32) bs

-- `sum = (sum >> 16) + (sum & 0xFFFF); sum += (sum >> 16)`
unfoldable pub fold_sum : ℕ → ℕ
fold_sum sum = let s = sum / 2 ^ 16 + sum % 2 ^ 16 in s + s / 2 ^ 16

unfoldable pub net_checksum : List ℕ → ℕ
unfolding fold_sum sum_words
net_checksum bytes = 2 ^ 16 - 1 - fold_sum (sum_words 0 bytes) % 2 ^ 16

-- The pseudo header in front of a segment.
unfoldable pub pseudo_header : ℕ → ℕ → ℕ → List ℕ
pseudo_header src dst len =
    le32 src ++ (le32 dst ++ (0 ∷ ip_proto_tcp ∷ le16 (htons (len % 2 ^ 16))))

unfoldable pub tcp_checksum : ℕ → ℕ → List ℕ → ℕ
unfolding fold_sum sum_words pseudo_header
tcp_checksum src dst tcp =
    2 ^ 16
    - 1
    - fold_sum (sum_words (sum_words 0 (pseudo_header src dst (length tcp))) tcp) % 2 ^ 16

-- `*str - '0'` of a `char`, as the addition of 32-bit words sees it.
abbrev pub digit_of_char : ℕ → ℕ
digit_of_char c = (if leb 128 c then c + 2 ^ 32 - 256 else c + 2 ^ 32) - 48

unfoldable pub ip_from : ℕ → ℕ → List ℕ → ℕ
unfolding htonl
ip_from ip val [] = htonl (bit_or (ip * 256 % 2 ^ 32) val)
ip_from ip val (c ∷ cs) =
    let dot = ip_from (bit_or (ip * 256 % 2 ^ 32) val) 0 cs in
    let digit = ip_from ip ((val * 10 + digit_of_char c) % 2 ^ 32) cs in
    if c == 46 then dot else digit

unfoldable pub net_ip_from_string : List ℕ → ℕ
unfolding ip_from
net_ip_from_string str = ip_from 0 0 str

-- The text of one of the four octets of an address in the order of its bytes.
abbrev pub octet_text : ℕ → ℕ → List ℕ
octet_text ip i = itoa (pos (ip / 256 ^ i % 256)) 10

unfoldable pub net_ip_to_string : ℕ → List ℕ
unfolding htonl
net_ip_to_string ip =
    let host = htonl ip in
    octet_text host 3
    ++ (46 ∷ octet_text host 2 ++ (46 ∷ octet_text host 1 ++ (46 ∷ octet_text host 0)))

unfoldable pub net_set_nic_send : Bool → Net → Net
net_set_nic_send present s = record s { nic_send = present }

-- `nic_send(frame, len)`
abbrev pub send_frame : List ℕ → Net → Net
send_frame frame s = record s { frames = s.frames ++ (frame ∷ []) }

unfoldable pub net_init : Net → Net
unfolding net_ip_from_string
net_init s = record s {
  sockets = replicate net_max_sockets zero_socket;
  arp_cache = replicate arp_cache_size (record { ip = 0; mac = zero_mac; expiry = 0 });
  local_ip = net_ip_from_string (49 ∷ 48 ∷ 46 ∷ 48 ∷ 46 ∷ 50 ∷ 46 ∷ 49 ∷ 53 ∷ []);
  gateway_ip = net_ip_from_string (49 ∷ 48 ∷ 46 ∷ 48 ∷ 46 ∷ 50 ∷ 46 ∷ 50 ∷ []);
  subnet_mask =
      net_ip_from_string (50 ∷ 53 ∷ 53 ∷ 46 ∷ 50 ∷ 53 ∷ 53 ∷ 46 ∷ 50 ∷ 53 ∷ 53 ∷ 46 ∷ 48 ∷ []);
}
