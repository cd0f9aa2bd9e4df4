-- ===== src/Download/Bitfield/Bytes.antt =====
-- One byte of a bitfield: its bits under a write at an offset.
use furrent.Prelude.{
  ℕ, ◌<◌, ◌≡◌, refl, ◌==◌, ltb, ltb→lt, Bool, true, false, ◌&&◌, not, if◌then◌else◌, every_below,
  every_below-at, arith,
}
use furrent.Download.Bitfield.{put_bit, bit_of}

-- The two bits are one.
same : Bool → Bool → Bool
same true b = b
same false b = not b

same→eq : (a b : Bool) → same a b ≡ true → a ≡ b
unfolding same
same→eq true b h = ground arith
same→eq false b h = ground arith

-- What is to hold of a write of `v` at offset `o`, read at offset `p`.
written : Bool → ℕ → ℕ → ℕ → Bool
unfolding same
written v o p b =
    ltb (put_bit b o v) 256 && same (bit_of (put_bit b o v) p) (if o == p then v else bit_of b p)

written_everywhere : Bool → Bool
unfolding written every_below
written_everywhere v =
    every_below (λ o. every_below (λ p. every_below (λ b. written v o p b) 256) 8) 8

written_table : (v : Bool) → written_everywhere v ≡ true
unfolding written_everywhere
written_table true = refl
written_table false = refl

written-true : (v : Bool) (o p b : ℕ) → o < 8 → p < 8 → b < 256 → written v o p b ≡ true
unfolding written_everywhere
written-true v o p b ho hp hb =
    every_below-at (λ b. written v o p b) 256 b hb
      (every_below-at (λ p. every_below (λ b. written v o p b) 256) 8 p hp
        (every_below-at (λ o. every_below (λ p. every_below (λ b. written v o p b) 256) 8) 8 o ho
          (written_table v)))

module _ (v : Bool) (o p b : ℕ) (ho : o < 8) (hp : p < 8) (hb : b < 256) where
  pub put_bit-lt : put_bit b o v < 256
  unfolding written
  put_bit-lt = ltb→lt _ _ (left _ _ (written-true v o p b ho hp hb))
    where
      left : (x y : Bool) → (x && y) ≡ true → x ≡ true
      left true y h = refl
      left false y h = h

  pub bit_of-put_bit : bit_of (put_bit b o v) p ≡ (if o == p then v else bit_of b p)
  unfolding written
  bit_of-put_bit = same→eq _ _ (right _ _ (written-true v o p b ho hp hb))
    where
      right : (x y : Bool) → (x && y) ≡ true → y ≡ true
      right true y h = h
      right false y h = ground arith
