-- ===== src/Network/Cidr/Printed.antt =====
-- What `intToIp` prints is read back by the regular expression of `parseCidr`.
use specifyr.Prelude.{
  ℕ, ◌%◌, ◌<◌, ◌≡◌, refl, ap, false, some, ◌∷◌, ◌++◌, Text, codes, arith, ltb, Bool-cases, inl, inr,
}
use mathlib.Core.List.{append_assoc}
use specifyr.Network.Cidr.{
  Groups, is_digit, digits_from, number, match_groups, decimal, byte_at, int_to_ip, u32_mod,
}

-- A byte is printed so that `(\d+)` reads it back, whatever follows that is no digit.
number-decimal :
    (n c : ℕ) (s : Text)
    → n < 256
    → is_digit c ≡ false
    → number (decimal n ++ (c ∷ s)) ≡ some (n, c ∷ s)
unfolding number digits_from decimal
number-decimal n c s h k = elim (Bool-cases (ltb n 10)) [
  | inl small ↦ ground arith
  | inr large ↦ elim (Bool-cases (ltb n 100)) [ inl two ↦ ground arith | inr three ↦ ground arith ]
]

byte_at-lt : (n k : ℕ) → byte_at n k < 256
unfolding byte_at
byte_at-lt n k = omega arith

abbrev pub octets : ℕ → Groups
octets n = record {
  a = byte_at n 24;
  b = byte_at n 16;
  c = byte_at n 8;
  d = byte_at n 0;
  prefix = 24;
}

-- The address that `intToIp` prints, with `/24` behind it, is matched by the pattern of `parseCidr`,
-- which reads the same four octets back.
pub match_groups-int_to_ip : (n : ℕ) → match_groups (int_to_ip n ++ codes "/24") ≡ some (octets n)
unfolding match_groups int_to_ip
match_groups-int_to_ip n = simp (append_assoc) (
    rw
      (
        number-decimal (byte_at n 24) b'.' _ (byte_at-lt n 24) refl,
        number-decimal (byte_at n 16) b'.' _ (byte_at-lt n 16) refl,
        number-decimal (byte_at n 8) b'.' _ (byte_at-lt n 8) refl,
        number-decimal (byte_at n 0) b'/' _ (byte_at-lt n 0) refl,
      )
      refl)

-- Numbers below 2 ^ 32 with the same octets are the same.
pub octets-injective : (n m : ℕ) → octets n ≡ octets m → n % u32_mod ≡ m % u32_mod
unfolding byte_at
octets-injective n m e =
    let ea = ap (λ (g : Groups). g.a) e in
    let eb = ap (λ (g : Groups). g.b) e in
    let ec = ap (λ (g : Groups). g.c) e in
    let ed = ap (λ (g : Groups). g.d) e in omega (arith, ea, eb, ec, ed)
