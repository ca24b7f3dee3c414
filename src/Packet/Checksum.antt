-- ===== src/Packet/Checksum.antt =====
-- The Internet checksum of a header: the value is right; the field on the wire is its byte swap.
use hashpipe.Base.{ℕ, zero, suc, ◌+◌, ◌-◌, ◌*◌, ◌/◌, ◌%◌, ◌^◌, ◌≤◌, ◌<◌, ◌≡◌, refl, ◌↔◌, arith}
use hashpipe.Base.{
  Option, some, List, [], ◌∷◌, get_or, set, take, length, dec_lt, take-all, ap, ◌∙◌,
}
use hashpipe.Packet.{swap16, add_words, fold_carries, store_check, iphdr_checksum}

-- The sum of the words as the network has them, unbounded.
abbrev pub total : List ℕ → ℕ
total [] = 0
total (w ∷ ws) = swap16 w + total ws

swap16-lt : (x : ℕ) → swap16 x < 2 ^ 16
swap16-lt x = omega arith

total-lt : (ws : List ℕ) → total ws ≤ length ws * (2 ^ 16 - 1)
total-lt [] = omega arith
total-lt (w ∷ ws) = omega (arith, total-lt ws, swap16-lt w)

total-set :
    (ws : List ℕ) (i v : ℕ)
    → i < length ws
    → total (set ws i v) + swap16 (get_or ws i 0) ≡ total ws + swap16 v
total-set [] i v h = absurd (omega arith)
total-set (w ∷ ws) zero v h = omega arith
total-set (w ∷ ws) (suc i) v h = omega (arith, total-set ws i v (omega arith))

add_words-total : (s : ℕ) (ws : List ℕ) → s < 2 ^ 32 → add_words s ws ≡ (s + total ws) % 2 ^ 32
unfolding add_words
add_words-total s [] h = omega arith
add_words-total s (w ∷ ws) h =
    omega (arith, add_words-total ((s + swap16 w) % 2 ^ 32) ws (omega arith))

abbrev round : ℕ → ℕ
round s = s / 2 ^ 16 % 2 ^ 16 + s % 2 ^ 16

round_lem : (s : ℕ) → s < 2 ^ 32 → (round s % 65535 ≡ s % 65535) × (round s ≤ 2 * 65535)
round_lem s h = omega arith

round_again : (s : ℕ) → s ≤ 2 * 65535 → round s < 2 ^ 16
round_again s h = omega arith

fold_carries_done : (f s : ℕ) → s < 2 ^ 16 → fold_carries (suc f) s ≡ some s
unfolding fold_carries
fold_carries_done f s h = ground arith

fold_carries_more : (f s : ℕ) → 2 ^ 16 ≤ s → fold_carries (suc f) s ≡ fold_carries f (round s)
unfolding fold_carries
fold_carries_more f s h = ground arith

-- A sum with its carries folded in.
record Folded (s : ℕ) (o : Option ℕ) : Type 0 where
  sum : ℕ
  done : o ≡ some sum
  small : sum < 2 ^ 16
  same : sum % 65535 ≡ s % 65535

-- Two rounds fold any 32-bit sum, the third finds nothing to do. The residue by 2 ^ 16 - 1 stays.
fold_carries_lem : (s : ℕ) → s < 2 ^ 32 → Folded s (fold_carries 3 s)
fold_carries_lem s h = elim (dec_lt s (2 ^ 16)) [
  | yes p ↦ record { sum = s; done = fold_carries_done 2 s p; small = p; same = refl }
  | no p ↦ elim (dec_lt (round s) (2 ^ 16)) [
    | yes q ↦ record {
      sum = round s;
      done = fold_carries_more 2 s (omega arith) ∙ fold_carries_done 1 (round s) q;
      small = q;
      same = (round_lem s h).0;
    }
    | no q ↦ record {
      sum = round (round s);
      done =
          fold_carries_more 2 s (omega arith)
          ∙ fold_carries_more 1 (round s) (omega arith)
          ∙ fold_carries_done 0 (round (round s)) (round_again (round s) (round_lem s h).1);
      small = round_again (round s) (round_lem s h).1;
      same = (round_lem (round s) (omega (arith, round_lem s h))).0 ∙ (round_lem s h).0;
    }
  ]
]

module _ (ihl : ℕ) (p : List ℕ) (long : 3 ≤ ihl) (short : ihl < 16)
    (whole : length p ≡ 2 * ihl) where
  take_whole : take (2 * ihl) p ≡ p
  take_whole = take-all p (2 * ihl) (omega arith)

  -- Starting at minus the old checksum, the sum is that of the other words.
  sum_of_rest :
      add_words ((2 ^ 32 - swap16 (get_or p 5 0)) % 2 ^ 32) (take (2 * ihl) p) ≡ total (set p 5 0)
  sum_of_rest =
      ap (add_words _) take_whole
      ∙ add_words-total _ p (omega arith)
      ∙ omega (arith, total-set p 5 0 (omega arith), total-lt p, swap16-lt (get_or p 5 0))

  rest-lt : total (set p 5 0) < 2 ^ 32
  rest-lt = omega (arith, total-set p 5 0 (omega arith), total-lt p)

  -- For a header of 3 to 15 words of 32 bits, the checksum is found within three rounds, whatever
  -- was in its field: the value returned fits 16 bits and makes the one's complement sum of the
  -- other words zero, and only the checksum's word is changed, to that value in the host's byte
  -- order.
  pub iphdr_checksum_lem :
      (c : ℕ) × (iphdr_checksum 3 ihl p ≡ some (c, set p 5 c))
      × (c < 2 ^ 16)
      × ((total (set p 5 0) + c) % 65535 ≡ 0)
  unfolding iphdr_checksum
  iphdr_checksum_lem =
      let f = fold_carries_lem (total (set p 5 0)) rest-lt in
      (
        2 ^ 16 - 1 - f.sum % 2 ^ 16,
        ap (store_check p) (ap (fold_carries 3) sum_of_rest ∙ f.done),
        omega arith,
        omega (arith, f.small, f.same),
      )

palindrome :
    (s c t : ℕ)
    → c < 2 ^ 16
    → (s + c) % 65535 ≡ 0
    → t ≡ s + swap16 c
    → (t % 65535 ≡ 0) ↔ (c % 256 ≡ c / 256)
palindrome s c t small sum e = ((λ h. omega arith), (λ h. omega arith))

-- For a header of 3 to 15 words of 32 bits, whose stored word a receiver reads through `ntohs`: on
-- a little-endian host the header passes its test exactly when the checksum's two bytes are equal.
iphdr_checksum_on_wire :
    (ihl : ℕ) (p : List ℕ)
    → 3 ≤ ihl
    → ihl < 16
    → length p ≡ 2 * ihl
    → (c : ℕ) × (iphdr_checksum 3 ihl p ≡ some (c, set p 5 c))
      × ((total (set p 5 c) % 65535 ≡ 0) ↔ (c % 256 ≡ c / 256))
iphdr_checksum_on_wire ihl p long short whole =
    let (c, e, small, sum) = iphdr_checksum_lem ihl p long short whole in
    (c, e, palindrome (total (set p 5 0)) c (total (set p 5 c)) small sum (moved c))
  where
    moved : (c : ℕ) → total (set p 5 c) ≡ total (set p 5 0) + swap16 c
    moved c = omega (arith, total-set p 5 c (omega arith), total-set p 5 0 (omega arith))
