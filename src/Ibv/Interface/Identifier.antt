-- ===== src/Ibv/Interface/Identifier.antt =====
-- The identifier stands for the address.
use hashpipe.Base.{
  ℕ, zero, suc, ◌+◌, ◌*◌, ◌/◌, ◌%◌, ◌^◌, ◌<◌, ◌≡◌, refl, ap, ◌∙◌, arith, ◌==◌, ltb, ◌&&◌, dec_lt,
  subst, bit_xor,
}
use hashpipe.Base.{Bool, true, [], ◌∷◌}
use hashpipe.Ibv.Device.{swap64}
use hashpipe.Ibv.Interface.{HwAddr, load, eui64, interface_id_of}

-- The bytes of an address are bytes.
pub record AreBytes (a : HwAddr) : Type 0 where
  pub fits0 : a.byte0 < 256
  pub fits1 : a.byte1 < 256
  pub fits2 : a.byte2 < 256
  pub fits3 : a.byte3 < 256
  pub fits4 : a.byte4 < 256
  pub fits5 : a.byte5 < 256

-- The address that an identifier belongs to.
abbrev pub address_of : ℕ → HwAddr
address_of id = record {
  byte0 = bit_xor (id / 2 ^ 56 % 256) 2;
  byte1 = id / 2 ^ 48 % 256;
  byte2 = id / 2 ^ 40 % 256;
  byte3 = id / 2 ^ 16 % 256;
  byte4 = id / 2 ^ 8 % 256;
  byte5 = id % 256;
}

-- A test of all numbers below `n`.
all_below : (ℕ → Bool) → ℕ → Bool
all_below test zero = true
all_below test (suc n) = test n && all_below test n

all_below-test : (test : ℕ → Bool) (n j : ℕ) → all_below test n ≡ true → j < n → test j ≡ true
unfolding all_below
all_below-test test zero j e l = absurd (omega arith)
all_below-test test (suc n) j e l = elim (dec_lt j n) [
  | yes lt ↦ all_below-test test n j (second (test n) (all_below test n) e) lt
  | no ge ↦ subst (λ k. test k ≡ true) (at_top ge) (first (test n) (all_below test n) e)
]
  where
    first : (a b : Bool) → a && b ≡ true → a ≡ true
    first a b e = ground (arith, e)

    second : (a b : Bool) → a && b ≡ true → b ≡ true
    second a b e = ground (arith, e)

    at_top : ¬ (j < n) → n ≡ j
    at_top ge = omega arith

abbrev toggles : ℕ → Bool
toggles b = bit_xor (bit_xor b 2) 2 == b && ltb (bit_xor b 2) 256

all_toggle : all_below toggles 256 ≡ true
unfolding all_below
all_toggle = refl

-- Eight bytes, read with the first one highest.
big_endian :
    (b0 b1 b2 b3 b4 b5 b6 b7 : ℕ)
    → b0 < 256
    → b1 < 256
    → b2 < 256
    → b3 < 256
    → b4 < 256
    → b5 < 256
    → b6 < 256
    → b7 < 256
    → swap64 (load (b0 ∷ b1 ∷ b2 ∷ b3 ∷ b4 ∷ b5 ∷ b6 ∷ b7 ∷ []))
      ≡ b0 * 2 ^ 56
        + b1 * 2 ^ 48
        + b2 * 2 ^ 40
        + b3 * 2 ^ 32
        + b4 * 2 ^ 24
        + b5 * 2 ^ 16
        + b6 * 2 ^ 8
        + b7
unfolding load
big_endian b0 b1 b2 b3 b4 b5 b6 b7 l0 l1 l2 l3 l4 l5 l6 l7 = omega arith

toggled : (b : ℕ) → b < 256 → (bit_xor (bit_xor b 2) 2 ≡ b) × (bit_xor b 2 < 256)
toggled b l = parts (all_below-test toggles 256 b all_toggle l)
  where
    parts :
        bit_xor (bit_xor b 2) 2 == b && ltb (bit_xor b 2) 256 ≡ true
        → (bit_xor (bit_xor b 2) 2 ≡ b) × (bit_xor b 2 < 256)
    parts e = ground (arith, e)

HwAddr-ext :
    (a b : HwAddr)
    → a.byte0 ≡ b.byte0
    → a.byte1 ≡ b.byte1
    → a.byte2 ≡ b.byte2
    → a.byte3 ≡ b.byte3
    → a.byte4 ≡ b.byte4
    → a.byte5 ≡ b.byte5
    → a ≡ b
HwAddr-ext a b e0 e1 e2 e3 e4 e5 = cc

-- Of the identifier that is returned for an interface, its address can be read back: no two addresses
-- have the same one.
pub interface_id_of-address : (a : HwAddr) → AreBytes a → address_of (interface_id_of a) ≡ a
unfolding interface_id_of eui64
interface_id_of-address a l =
    let t = toggled a.byte0 l.fits0 in
    let whole =
      big_endian (bit_xor a.byte0 2) a.byte1 a.byte2 0xff 0xfe a.byte3 a.byte4 a.byte5 t.1 l.fits1
        l.fits2 (omega arith) (omega arith) l.fits3 l.fits4 l.fits5 in
    HwAddr-ext (address_of (interface_id_of a)) a
      (ap (λ n. bit_xor (n / 2 ^ 56 % 256) 2) whole
        ∙ ap (λ n. bit_xor n 2) (omega (arith, t.1, l.fits1, l.fits2, l.fits3, l.fits4, l.fits5))
        ∙ t.0)
      (ap (λ n. n / 2 ^ 48 % 256) whole
        ∙ omega (arith, l.fits1, l.fits2, l.fits3, l.fits4, l.fits5))
      (ap (λ n. n / 2 ^ 40 % 256) whole
        ∙ omega (arith, l.fits1, l.fits2, l.fits3, l.fits4, l.fits5))
      (ap (λ n. n / 2 ^ 16 % 256) whole
        ∙ omega (arith, l.fits1, l.fits2, l.fits3, l.fits4, l.fits5))
      (ap (λ n. n / 2 ^ 8 % 256) whole ∙ omega (arith, l.fits1, l.fits2, l.fits3, l.fits4, l.fits5))
      (ap (λ n. n % 256) whole ∙ omega (arith, l.fits1, l.fits2, l.fits3, l.fits4, l.fits5))
