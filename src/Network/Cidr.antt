-- ===== src/Network/Cidr.antt =====
-- `parseCidr` and `intToIp` of server/shared/utils/bridge-subnet-allocator.ts. A text is its
-- character codes; the 32-bit operations of JavaScript keep their wrap-around.
pub mod Printed
use Prim.Native.Nat.{bit_and, bit_or}
use specifyr.Prelude.{
  ℕ, ◌+◌, ◌-◌, ◌*◌, ◌/◌, ◌%◌, ◌^◌, Bool, ◌&&◌, ◌||◌, Option, none, some, [], ◌∷◌, ◌++◌, Text, ◌==◌,
  leb, ltb, if◌then◌else◌,
}

pub record Cidr : Type 0 where
  pub base_int : ℕ
  pub prefix : ℕ

infixl 5 ◌>>=◌
abbrev ◌>>=◌ {ℓ κ} : {A : Type ℓ} {B : Type κ} → Option A → (A → Option B) → Option B
none >>= f = none
some a >>= f = f a

abbrev is_digit : ℕ → Bool
is_digit c = leb b'0' c && leb c b'9'

-- `(\d+)` and `Number`, with the value of the digits read so far. Digits are taken as long as
-- they come, and what must follow them is no digit.
digits_from : ℕ → Text → ℕ × Text
digits_from n [] = (n, [])
digits_from n (c ∷ s) =
    let more = digits_from (n * 10 + (c - b'0')) s in if is_digit c then more else (n, c ∷ s)

number : Text → Option (ℕ × Text)
unfolding digits_from
number [] = none
number (c ∷ s) = if is_digit c then some (digits_from (c - b'0') s) else none

-- The given character must come next.
expect : ℕ → Text → Option Text
expect c [] = none
expect c (d ∷ s) = if d == c then some s else none

at_end : Text → Option (Unit {0})
at_end [] = some tt
at_end (_ ∷ _) = none

abbrev pub u32_mod : ℕ
u32_mod = 2 ^ 32

-- `(x << k) >>> 0`
abbrev shl32 : ℕ → ℕ → ℕ
shl32 x k = (x * 2 ^ k) % u32_mod

pub mask_of : ℕ → ℕ
mask_of prefix = if prefix == 0 then 0 else shl32 (u32_mod - 1) (32 - prefix)

pub raw_of : ℕ → ℕ → ℕ → ℕ → ℕ
raw_of a b c d = bit_or (bit_or (bit_or (shl32 a 24) (shl32 b 16)) (shl32 c 8)) d

-- The range test and the masking, once the five numbers are read.
pub make_cidr : ℕ → ℕ → ℕ → ℕ → ℕ → Option Cidr
unfolding mask_of raw_of
make_cidr a b c d prefix =
    if ltb 255 a || ltb 255 b || ltb 255 c || ltb 255 d || ltb 32 prefix
    then none
    else some (record { base_int = bit_and (raw_of a b c d) (mask_of prefix); prefix = prefix })

-- The five groups of the regular expression, as numbers.
pub record Groups : Type 0 where
  pub a : ℕ
  pub b : ℕ
  pub c : ℕ
  pub d : ℕ
  pub prefix : ℕ

unfoldable pub match_groups : Text → Option Groups
unfolding number expect at_end
match_groups cidr = do
  (a, s₁) ← number cidr
  (b, s₂) ← number (← expect b'.' s₁)
  (c, s₃) ← number (← expect b'.' s₂)
  (d, s₄) ← number (← expect b'.' s₃)
  (p, s₅) ← number (← expect b'/' s₄)
  e ← at_end s₅
  some (record { a = a; b = b; c = c; d = d; prefix = p })

-- `none` is the error "invalid CIDR".
unfoldable pub parse_cidr : Text → Option Cidr
unfolding match_groups make_cidr
parse_cidr cidr = do g ← match_groups cidr; make_cidr g.a g.b g.c g.d g.prefix

-- A number below 1000 in decimal.
pub decimal : ℕ → Text
decimal n =
    if ltb n 10
    then (n + b'0') ∷ []
    else if ltb n 100
    then (n / 10 + b'0') ∷ (n % 10 + b'0') ∷ []
    else (n / 100 + b'0') ∷ (n / 10 % 10 + b'0') ∷ (n % 10 + b'0') ∷ []

-- `(n >>> k) & 0xff`
pub byte_at : ℕ → ℕ → ℕ
byte_at n k = (n % u32_mod) / 2 ^ k % 256

unfoldable pub int_to_ip : ℕ → Text
unfolding decimal byte_at
int_to_ip n =
    decimal (byte_at n 24)
    ++ (b'.' ∷ decimal (byte_at n 16)
        ++ (b'.' ∷ decimal (byte_at n 8) ++ (b'.' ∷ decimal (byte_at n 0))))
