-- ===== src/Net/Addresses.antt =====
-- src/net/net.c: the text of an address, read back.
use cro_os.Base.{
  ℕ, zero, suc, ◌+◌, ◌*◌, ◌/◌, ◌%◌, ◌^◌, ◌<◌, ◌≡◌, refl, ap, sym, subst, ◌∙◌, List, [], ◌∷◌, ◌++◌,
  Bool-cases, inl, inr, ◌==◌, ==→eq, pow-suc, pos, append-nil, arith,
}
use cro_os.Base.Bits.{bit_or-add}
use cro_os.Base.Digits.{digits}
use cro_os.Libc.Numbers.{itoa, unsigned_text, put_digits, digit_char}
use cro_os.Net.{htonl, ip_from, net_ip_from_string, net_ip_to_string}

put_digits-append : (ds out rest : List ℕ) → put_digits ds out ++ rest ≡ put_digits ds (out ++ rest)
unfolding put_digits
put_digits-append [] out rest = refl
put_digits-append (d ∷ ds) out rest = put_digits-append ds (digit_char d ∷ out) rest

ip_from-digit :
    (ip val d : ℕ) (cs : List ℕ)
    → d < 10
    → val * 10 + d < 2 ^ 32
    → ip_from ip val (digit_char d ∷ cs) ≡ ip_from ip (val * 10 + d) cs
unfolding ip_from
ip_from-digit ip val d cs h w = ground arith

ip_from-digits :
    (f ip n : ℕ) (out : List ℕ)
    → n < 2 ^ f
    → n < 256
    → ip_from ip 0 (put_digits (digits f 10 n) out) ≡ ip_from ip n out
unfolding put_digits digits
ip_from-digits zero ip n out h k = let e : n ≡ 0 = omega arith in rw e refl
ip_from-digits (suc f) ip n out h k =
    let parts : n / 10 * 10 + n % 10 ≡ n = omega arith in
    let step : ip_from ip (n / 10) (digit_char (n % 10) ∷ out) ≡ ip_from ip n out =
      subst (λ m. ip_from ip (n / 10) (digit_char (n % 10) ∷ out) ≡ ip_from ip m out) parts
        (ip_from-digit ip (n / 10) (n % 10) out (omega arith) (omega arith)) in
    elim (Bool-cases (n / 10 == 0)) [
      | inl e ↦ rw e (
          subst (λ q. ip_from ip q (digit_char (n % 10) ∷ out) ≡ ip_from ip n out)
            (==→eq (n / 10) 0 e) step)
      | inr e ↦ rw e (
          ip_from-digits f ip (n / 10) (digit_char (n % 10) ∷ out) (omega (arith, pow-suc 2 f))
            (omega arith)
          ∙ step)
    ]

-- The text of an octet.
octet : ℕ → List ℕ
octet o = itoa (pos o) 10

ip_from-octet :
    (ip o : ℕ) (rest : List ℕ) → o < 256 → ip_from ip 0 (octet o ++ rest) ≡ ip_from ip o rest
unfolding octet itoa unsigned_text
ip_from-octet ip o rest h =
    let e : o % 2 ^ 32 ≡ o = omega arith in
    rw (put_digits-append (digits 32 10 (o % 2 ^ 32)) [] rest, e)
      (ip_from-digits 32 ip o rest (omega arith) h)

-- A dot shifts the octets before it.
ip_from-dot :
    (ip o : ℕ) (rest : List ℕ)
    → ip < 2 ^ 24
    → o < 256
    → ip_from ip 0 (octet o ++ (46 ∷ rest)) ≡ ip_from (ip * 2 ^ 8 + o) 0 rest
unfolding ip_from
ip_from-dot ip o rest h k =
    let shifted : ip * 256 % 2 ^ 32 ≡ ip * 2 ^ 8 = omega arith in
    ip_from-octet ip o (46 ∷ rest) k
    ∙ rw shifted (ap (λ (q : ℕ). ip_from q 0 rest) (bit_or-add 8 ip o k))

ip_from-end : (ip o : ℕ) → ip < 2 ^ 24 → o < 256 → ip_from ip 0 (octet o) ≡ htonl (ip * 2 ^ 8 + o)
unfolding ip_from
ip_from-end ip o h k =
    let shifted : ip * 256 % 2 ^ 32 ≡ ip * 2 ^ 8 = omega arith in
    ap (λ l. ip_from ip 0 l) (sym (append-nil (octet o)))
    ∙ ip_from-octet ip o [] k
    ∙ rw shifted (ap htonl (bit_or-add 8 ip o k))

htonl-htonl : (w : ℕ) → w < 2 ^ 32 → htonl (htonl w) ≡ w
unfolding htonl
htonl-htonl w h = omega arith

octets :
    (w : ℕ)
    → w < 2 ^ 32
    → (((0 * 2 ^ 8 + w / 256 ^ 3 % 256) * 2 ^ 8 + w / 256 ^ 2 % 256) * 2 ^ 8 + w / 256 ^ 1 % 256)
          * 2 ^ 8
        + w / 256 ^ 0 % 256
      ≡ w
octets w h = omega arith

htonl-le : (w : ℕ) → w < 2 ^ 32 → htonl w < 2 ^ 32
unfolding htonl
htonl-le w h = omega arith

-- The text of an address reads back as the address.
pub net_ip_from_string-net_ip_to_string :
    (ip : ℕ) → ip < 2 ^ 32 → net_ip_from_string (net_ip_to_string ip) ≡ ip
unfolding net_ip_from_string net_ip_to_string octet
net_ip_from_string-net_ip_to_string ip h =
    let w = htonl ip in
    let first = w / 256 ^ 3 % 256 in
    let a = 0 * 2 ^ 8 + first in
    let b = w / 256 ^ 2 % 256 in
    let c = w / 256 ^ 1 % 256 in
    let d = w / 256 ^ 0 % 256 in
    ip_from-dot 0 first (octet b ++ (46 ∷ octet c ++ (46 ∷ octet d))) (omega arith) (omega arith)
    ∙ ip_from-dot a b (octet c ++ (46 ∷ octet d)) (omega arith) (omega arith)
    ∙ ip_from-dot (a * 2 ^ 8 + b) c (octet d) (omega arith) (omega arith)
    ∙ ip_from-end ((a * 2 ^ 8 + b) * 2 ^ 8 + c) d (omega arith) (omega arith)
    ∙ ap htonl (octets w (htonl-le ip h))
    ∙ htonl-htonl ip h
