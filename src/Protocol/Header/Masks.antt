-- ===== src/Protocol/Header/Masks.antt =====
-- The masks of the getters and setters of protocol/message.go as arithmetic on one byte.
use frpc.Base.{ℕ, ◌+◌, ◌*◌, ◌/◌, ◌%◌, ◌<◌, ◌≡◌, refl, bit_and, bit_or, holds_below, table, table₂}

pub mask_80 : (b : ℕ) → b < 256 → bit_and b 0x80 ≡ b / 128 * 128
unfolding holds_below
mask_80 = table 256 _ _ refl

pub mask_40 : (b : ℕ) → b < 256 → bit_and b 0x40 ≡ b / 64 % 2 * 64
unfolding holds_below
mask_40 = table 256 _ _ refl

pub mask_20 : (b : ℕ) → b < 256 → bit_and b 0x20 ≡ b / 32 % 2 * 32
unfolding holds_below
mask_20 = table 256 _ _ refl

pub mask_1c : (b : ℕ) → b < 256 → bit_and b 0x1c ≡ b / 4 % 8 * 4
unfolding holds_below
mask_1c = table 256 _ _ refl

pub mask_03 : (b : ℕ) → b < 256 → bit_and b 0x03 ≡ b % 4
unfolding holds_below
mask_03 = table 256 _ _ refl

pub mask_f0 : (b : ℕ) → b < 256 → bit_and b 0xf0 ≡ b / 16 * 16
unfolding holds_below
mask_f0 = table 256 _ _ refl

pub clear_40 : (b : ℕ) → b < 256 → bit_and b 0xbf + b / 64 % 2 * 64 ≡ b
unfolding holds_below
clear_40 = table 256 _ _ refl

pub clear_20 : (b : ℕ) → b < 256 → bit_and b 0xdf + b / 32 % 2 * 32 ≡ b
unfolding holds_below
clear_20 = table 256 _ _ refl

pub raise_40 : (b : ℕ) → b < 256 → bit_or b 0x40 + b / 64 % 2 * 64 ≡ b + 64
unfolding holds_below
raise_40 = table 256 _ _ refl

pub raise_20 : (b : ℕ) → b < 256 → bit_or b 0x20 + b / 32 % 2 * 32 ≡ b + 32
unfolding holds_below
raise_20 = table 256 _ _ refl

pub raise_80 : (b : ℕ) → b < 256 → bit_or b 0x80 ≡ b % 128 + 128
unfolding holds_below
raise_80 = table 256 _ _ refl

pub or_zero : (b : ℕ) → b < 256 → bit_or b 0 ≡ b
unfolding holds_below
or_zero = table 256 _ _ refl

-- A field of `k` bits is or-ed with a value of `k` bits, and the other bits stay.
pub or_compress :
    (b c : ℕ) → b < 256 → c < 8 → bit_or b (c * 4) + b / 4 % 8 * 4 ≡ b + bit_or (b / 4 % 8) c * 4
unfolding holds_below
or_compress = table₂ 256 8 _ _ refl

pub or_lt_8 : (b c : ℕ) → b < 8 → c < 8 → bit_or b c ≡ bit_or b c % 8
unfolding holds_below
or_lt_8 = table₂ 8 8 _ _ refl

pub or_status : (b c : ℕ) → b < 256 → c < 4 → bit_or b c + b % 4 ≡ b + bit_or (b % 4) c
unfolding holds_below
or_status = table₂ 256 4 _ _ refl

pub or_serialize :
    (b c : ℕ) → b < 256 → c < 16 → bit_or b (c * 16) + b / 16 * 16 ≡ b + bit_or (b / 16) c * 16
unfolding holds_below
or_serialize = table₂ 256 16 _ _ refl

pub or_lt_16 : (b c : ℕ) → b < 16 → c < 16 → bit_or b c ≡ bit_or b c % 16
unfolding holds_below
or_lt_16 = table₂ 16 16 _ _ refl

pub or_lt_4 : (b c : ℕ) → b < 4 → c < 4 → bit_or b c ≡ bit_or b c % 4
unfolding holds_below
or_lt_4 = table₂ 4 4 _ _ refl
