-- ===== src/Float/Pack.antt =====
-- The word that carries the frequency, the slot and the depths into art_float.
use hetero_indexing.Prelude.{
  ℕ, ◌+◌, ◌-◌, ◌*◌, ◌/◌, ◌^◌, ◌<◌, ◌≤◌, ◌≡◌, refl, ap, ◌∙◌, arith, bit_or_shifted, bit_or_above,
  bit_or_ones, bit_and_ones, bit_and,
}
use hetero_indexing.Common.{u64}
use hetero_indexing.Float.{sign_extend, pack_info, unpack_info}

-- A frequency below 2 ^ 31 and a slot and depths below 2 ^ 8 come out of the word as they went in.
pub unpack_info-pack_info :
    (freq i depth d_parent : ℕ)
    → freq < 2 ^ 31
    → i < 2 ^ 8
    → depth < 2 ^ 8
    → d_parent < 2 ^ 8
    → unpack_info (pack_info freq i depth d_parent)
      ≡ (record { freq = freq; slot = i; depth = depth; depth_parent = d_parent })
unfolding pack_info unpack_info
unpack_info-pack_info freq i depth d_parent a b c d =
    let one = bit_or_shifted 8 d_parent depth c in
    let two : u64 ((d_parent * 2 ^ 8 + depth) * 2 ^ 8) ≡ (d_parent * 2 ^ 8 + depth) * 2 ^ 8 =
      omega arith in
    let three = bit_or_shifted 8 (d_parent * 2 ^ 8 + depth) i b in
    let upper = (d_parent * 2 ^ 8 + depth) * 2 ^ 8 + i in
    let four : u64 (upper * 2 ^ 32) ≡ upper * 2 ^ 32 = omega arith in
    let same : sign_extend freq ≡ freq = ground (arith, a) in
    let five = bit_or_shifted 32 upper freq (omega (arith, a)) in
    let word = upper * 2 ^ 32 + freq in
    let packed : pack_info freq i depth d_parent ≡ word =
      rw (one, two, three, four, same, five) refl in
    let at_freq : bit_and word (2 ^ 32 - 1) ≡ freq = bit_and_ones 32 word ∙ omega arith in
    let at_slot : bit_and (word / 2 ^ 32) (2 ^ 8 - 1) ≡ i =
      bit_and_ones 8 (word / 2 ^ 32) ∙ omega arith in
    let at_depth : bit_and (word / 2 ^ 40) (2 ^ 8 - 1) ≡ depth =
      bit_and_ones 8 (word / 2 ^ 40) ∙ omega arith in
    let at_parent : bit_and (word / 2 ^ 48) (2 ^ 8 - 1) ≡ d_parent =
      bit_and_ones 8 (word / 2 ^ 48) ∙ omega arith in
    ap unpack_info packed ∙ (λ j. record {
      freq = at_freq j;
      slot = at_slot j;
      depth = at_depth j;
      depth_parent = at_parent j;
    })

-- A frequency from 2 ^ 31 up to 2 ^ 32, a negative int, comes out of the word as it went in, but its
-- sign fills the bits of the slot and of both depths, which come out as 255 whatever they were.
pub unpack_info-pack_info_negative :
    (freq i depth d_parent : ℕ)
    → 2 ^ 31 ≤ freq
    → freq < 2 ^ 32
    → i < 2 ^ 8
    → depth < 2 ^ 8
    → d_parent < 2 ^ 8
    → unpack_info (pack_info freq i depth d_parent)
      ≡ (record { freq = freq; slot = 255; depth = 255; depth_parent = 255 })
unfolding pack_info unpack_info
unpack_info-pack_info_negative freq i depth d_parent s a b c d =
    let one = bit_or_shifted 8 d_parent depth c in
    let two : u64 ((d_parent * 2 ^ 8 + depth) * 2 ^ 8) ≡ (d_parent * 2 ^ 8 + depth) * 2 ^ 8 =
      omega arith in
    let three = bit_or_shifted 8 (d_parent * 2 ^ 8 + depth) i b in
    let upper = (d_parent * 2 ^ 8 + depth) * 2 ^ 8 + i in
    let four : u64 (upper * 2 ^ 32) ≡ upper * 2 ^ 32 = omega arith in
    let signed : sign_extend freq ≡ (2 ^ 32 - 1) * 2 ^ 32 + freq = ground (arith, s) in
    let five = bit_or_above 32 upper (2 ^ 32 - 1) freq a in
    let six = bit_or_ones 32 upper (omega arith) in
    let word = (2 ^ 32 - 1) * 2 ^ 32 + freq in
    let packed : pack_info freq i depth d_parent ≡ word =
      rw (one, two, three, four, signed, five, six) refl in
    let at_freq : bit_and word (2 ^ 32 - 1) ≡ freq = bit_and_ones 32 word ∙ omega arith in
    let at_slot : bit_and (word / 2 ^ 32) (2 ^ 8 - 1) ≡ 255 =
      bit_and_ones 8 (word / 2 ^ 32) ∙ omega arith in
    let at_depth : bit_and (word / 2 ^ 40) (2 ^ 8 - 1) ≡ 255 =
      bit_and_ones 8 (word / 2 ^ 40) ∙ omega arith in
    let at_parent : bit_and (word / 2 ^ 48) (2 ^ 8 - 1) ≡ 255 =
      bit_and_ones 8 (word / 2 ^ 48) ∙ omega arith in
    ap unpack_info packed ∙ (λ j. record {
      freq = at_freq j;
      slot = at_slot j;
      depth = at_depth j;
      depth_parent = at_parent j;
    })
