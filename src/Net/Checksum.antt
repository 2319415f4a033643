-- ===== src/Net/Checksum.antt =====
-- src/net/net.c: a checksum put into a packet makes the checksum of the whole packet 0, and the
-- replies that are sent have such checksums.
use cro_os.Base.{
  ℕ, zero, suc, ◌+◌, ◌-◌, ◌*◌, ◌/◌, ◌%◌, ◌^◌, ◌≤◌, ◌<◌, ◌≡◌, refl, ap, List, [], ◌∷◌, ◌++◌, length,
  get_or, take, drop, arith,
}
use cro_os.Net.{
  Bytes, Mac, Net, swapped16, read16, sum_words, fold_sum, net_checksum, le16, le32, read32,
}
use cro_os.Net.Receive.{slice, reply_ip_header, reply_icmp, echo_reply}

-- The sum of the 16-bit words, without a wrap.
word_sum : List ℕ → ℕ
word_sum [] = 0
word_sum (b ∷ []) = b
word_sum (b ∷ c ∷ bs) = b + 256 * c + word_sum bs

abbrev pub AreBytes : List ℕ → Type 0
AreBytes [] = Unit
AreBytes (x ∷ xs) = (x < 256) × AreBytes xs

sum_words-word_sum :
    (acc : ℕ) (xs : List ℕ) → acc < 2 ^ 32 → sum_words acc xs ≡ (acc + word_sum xs) % 2 ^ 32
unfolding sum_words word_sum
sum_words-word_sum acc [] h = omega arith
sum_words-word_sum acc (b ∷ []) h = refl
sum_words-word_sum acc (b ∷ c ∷ bs) h =
    omega (arith, sum_words-word_sum ((acc + (b + 256 * c)) % 2 ^ 32) bs)

word_sum-append :
    (xs ys : List ℕ) → length xs % 2 ≡ 0 → word_sum (xs ++ ys) ≡ word_sum xs + word_sum ys
unfolding word_sum
word_sum-append [] ys h = omega arith
word_sum-append (b ∷ []) ys h = absurd (omega arith)
word_sum-append (b ∷ c ∷ bs) ys h = omega (arith, word_sum-append bs ys (omega arith))

word_sum-le : (xs : List ℕ) → AreBytes xs → word_sum xs ≤ 65535 * length xs
unfolding word_sum
word_sum-le [] h = omega arith
word_sum-le (b ∷ []) h = omega (arith, h.0)
word_sum-le (b ∷ c ∷ bs) (h, (k, l)) = omega (arith, h, k, word_sum-le bs l)

-- The complement of a folded sum, added to the sum, folds to all ones.
fold_sum-complement :
    (n : ℕ)
    → n < 2 ^ 32 - 2 ^ 16
    → fold_sum (n + (2 ^ 16 - 1 - fold_sum n % 2 ^ 16)) % 2 ^ 16 ≡ 2 ^ 16 - 1
unfolding fold_sum
fold_sum-complement n h = omega arith

net_checksum-word_sum :
    (xs : List ℕ)
    → word_sum xs < 2 ^ 32
    → net_checksum xs ≡ 2 ^ 16 - 1 - fold_sum (word_sum xs) % 2 ^ 16
unfolding net_checksum
net_checksum-word_sum xs h =
    let e : sum_words 0 xs ≡ word_sum xs = omega (arith, sum_words-word_sum 0 xs) in rw e refl

word_sum-word :
    (before behind : List ℕ) (a b : ℕ)
    → length before % 2 ≡ 0
    → word_sum (before ++ (a ∷ b ∷ behind)) ≡ word_sum before + word_sum behind + (a + 256 * b)
unfolding word_sum
word_sum-word before behind a b e = omega (arith, word_sum-append before (a ∷ b ∷ behind) e)

-- In a packet of bytes, at most 64 KB, with a zero word at an even offset, putting the checksum
-- into that word makes the checksum of the packet 0, by which the receiver accepts it.
net_checksum_lem :
    (before behind : List ℕ)
    → length before % 2 ≡ 0
    → AreBytes before
    → AreBytes behind
    → length before + length behind ≤ 65535
    → net_checksum (before ++ (le16 (net_checksum (before ++ (0 ∷ 0 ∷ behind))) ++ behind)) ≡ 0
net_checksum_lem before behind e h k l =
    let n = word_sum before + word_sum behind in
    let small : n < 2 ^ 32 - 2 ^ 16 = omega (arith, word_sum-le before h, word_sum-le behind k) in
    let c = 2 ^ 16 - 1 - fold_sum n % 2 ^ 16 in
    let zeroed : word_sum (before ++ (0 ∷ 0 ∷ behind)) ≡ n =
      omega (arith, word_sum-word before behind 0 0 e) in
    let is_c : net_checksum (before ++ (0 ∷ 0 ∷ behind)) ≡ c =
      rw (net_checksum-word_sum (before ++ (0 ∷ 0 ∷ behind)) (omega arith), zeroed) refl in
    let whole : word_sum (before ++ (c % 256 ∷ c / 256 % 256 ∷ behind)) ≡ n + c =
      omega (arith, word_sum-word before behind (c % 256) (c / 256 % 256) e) in
    rw
      (
        is_c,
        net_checksum-word_sum (before ++ (c % 256 ∷ c / 256 % 256 ∷ behind)) (omega arith),
        whole,
      )
      (omega (arith, fold_sum-complement n small))

le32-AreBytes : (w : ℕ) (xs : List ℕ) → AreBytes xs → AreBytes (le32 w ++ xs)
le32-AreBytes w xs h = (omega arith, (omega arith, (omega arith, (omega arith, h))))

slice-AreBytes : (f : Bytes) (i n : ℕ) → ((k : ℕ) → f k < 256) → AreBytes (slice f i n)
unfolding slice
slice-AreBytes f i zero h = tt
slice-AreBytes f i (suc n) h = (h i, slice-AreBytes f (i + 1) n h)

length-slice : (f : Bytes) (i n : ℕ) → length (slice f i n) ≡ n
unfolding slice
length-slice f i zero = refl
length-slice f i (suc n) = omega (arith, length-slice f (i + 1) n)

-- The checksums and the lengths of the two parts of a reply, for an ICMP part of `n` bytes.
echo_checksums :
    (f : Bytes) (n : ℕ) (s : Net)
    → ((k : ℕ) → f k < 256)
    → 4 ≤ n
    → n ≤ 65535
    → (net_checksum (reply_ip_header f s) ≡ 0)
      × (length (reply_ip_header f s) ≡ 20)
      × (net_checksum (reply_icmp f n) ≡ 0)
      × (length (reply_icmp f n) ≡ n)
unfolding reply_ip_header reply_icmp
echo_checksums f n s h k l = (
  net_checksum_lem (slice f 14 10) (le32 s.local_ip ++ le32 (read32 f 26))
      (ap (λ (q : ℕ). q % 2) (length-slice f 14 10)) (slice-AreBytes f 14 10 h)
      (le32-AreBytes s.local_ip (le32 (read32 f 26)) (le32-AreBytes (read32 f 26) [] tt))
      (omega (arith, length-slice f 14 10)),
  refl,
  net_checksum_lem (0 ∷ f 35 ∷ []) (slice f 38 (n - 4)) refl (omega arith, (h 35, tt))
      (slice-AreBytes f 38 (n - 4) h) (omega (arith, length-slice f 38 (n - 4))),
  omega (arith, length-slice f 38 (n - 4)),
)

-- The length that `handle_icmp` reads from the IP header of a request.
abbrev pub pkt_len_of : Bytes → ℕ
pkt_len_of f = swapped16 (read16 f 16)

-- An echo reply of `14 + n` bytes to the request `f`: the addresses are exchanged, the type is 0, what
-- follows the ICMP checksum is the request's, and the receiver's checksums of both parts are 0.
pub record IsReply (f : Bytes) (n : ℕ) (s : Net) (reply : List ℕ) : Type 0 where
  pub size : length reply ≡ 14 + n
  pub header_sum : net_checksum (take 20 (drop 14 reply)) ≡ 0
  pub icmp_sum : net_checksum (drop 34 reply) ≡ 0
  pub from : take 4 (drop 26 reply) ≡ le32 s.local_ip
  pub to : take 4 (drop 30 reply) ≡ le32 (read32 f 26)
  pub kind : get_or reply 34 255 ≡ 0
  pub body : drop 38 reply ≡ slice f 38 (n - 24)

-- For a request whose length the code reads as a number from 24 to 65555, the echo reply has that many
-- bytes behind its 14 of Ethernet; it goes from this machine to the sender, has the type 0 and the
-- request's identifier, number and data, and the receiver's checksums of its IP header and of its ICMP
-- part are 0, by which it accepts them. The length read is 256 a + 65537 b for the bytes a and b of the
-- field, which is the length sent only if b is 0.
pub echo_reply_lem :
    (f : Bytes) (dst_mac : Mac) (s : Net)
    → ((k : ℕ) → f k < 256)
    → 24 ≤ pkt_len_of f
    → pkt_len_of f ≤ 65555
    → IsReply f (pkt_len_of f) s (echo_reply f (pkt_len_of f) dst_mac s)
      × (pkt_len_of f ≡ 256 * f 16 + 65537 * f 17)
unfolding echo_reply reply_ip_header reply_icmp slice
echo_reply_lem f dst_mac s h l u =
    let n = pkt_len_of f in
    let (header, _, icmp, size) =
      echo_checksums f (n - 20) s h (omega (arith, l)) (omega (arith, u)) in
    let rest : n - 20 - 4 ≡ n - 24 = omega arith in
    (
      record {
        size = omega (arith, size, l);
        header_sum = header;
        icmp_sum = icmp;
        from = refl;
        to = refl;
        kind = refl;
        body = ap (λ k. slice f 38 k) rest;
      },
      omega (arith, h 16, h 17),
    )
