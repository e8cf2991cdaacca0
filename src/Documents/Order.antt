-- ===== src/Documents/Order.antt =====
-- About the order of capped values in `ReverseRangeLookupDocument` of spring/docgen.py, which the
-- range queries compare as texts.
use perfrunner.Prelude.{
  ℕ, ◌+◌, ◌-◌, ◌*◌, ◌/◌, ◌^◌, ◌<◌, ◌≡◌, refl, ◌∙◌, sym, ap, Bool, true, false, ◌&&◌, [], ◌∷◌, ◌++◌,
  ok, arith, if◌then◌else◌, ◌==◌, ltb, Bool-cases, inl, inr, All, length, Returns,
}
use perfrunner.Prelude.Int.{pos, ◌+ℤ◌, pos-+ℤ}
use perfrunner.Text.Decimal.{IsDecimal, zero_pad-IsDecimal}
use perfrunner.Text.{Text, codes, digit_value, render, zero_pad, format_int, read_digits}
use perfrunner.Text.Digits.{read_digits-zero_pad, length-zero_pad}
use perfrunner.Documents.Lookup.{build_capped_wide, capped_wide, decimal}

-- `s < t` for texts
abbrev pub lt_text : Text → Text → Bool
lt_text [] [] = false
lt_text [] (d ∷ t) = true
lt_text (c ∷ s) [] = false
lt_text (c ∷ s) (d ∷ t) = if c == d then lt_text s t else ltb c d

-- The number that decimal digits spell.
spelled : ℕ → Text → ℕ
spelled acc [] = acc
spelled acc (c ∷ t) = spelled (acc * 10 + (c - b'0')) t

decimal_value : (c : ℕ) → IsDecimal c → digit_value c ≡ ok (c - b'0')
unfolding digit_value IsDecimal
decimal_value c h = ground (arith, h.0, h.1)

read_digits-spelled :
    (acc : ℕ) (t : Text) → All IsDecimal t → read_digits 10 acc t ≡ ok (spelled acc t)
unfolding read_digits spelled
read_digits-spelled acc [] h = refl
read_digits-spelled acc (c ∷ t) h =
    let d : digit_value c ≡ ok (c - b'0') = decimal_value c h.0 in
    rw d (read_digits-spelled (acc * 10 + (c - b'0')) t h.1)

spelled_lt :
    (a b : ℕ) (s t : Text)
    → length s ≡ length t
    → All IsDecimal s
    → All IsDecimal t
    → a < b
    → spelled a s < spelled b t
unfolding spelled IsDecimal
spelled_lt a b [] [] e hs ht h = h
spelled_lt a b [] (d ∷ t) e hs ht h = absurd (omega arith)
spelled_lt a b (c ∷ s) [] e hs ht h = absurd (omega arith)
spelled_lt a b (c ∷ s) (d ∷ t) e hs ht h =
    spelled_lt (a * 10 + (c - b'0')) (b * 10 + (d - b'0')) s t (omega arith) hs.1 ht.1
      (omega (arith, hs.0.0, hs.0.1, ht.0.0, ht.0.1))

smaller : (m n : ℕ) → m < n → ltb m n ≡ true
smaller m n h = ground arith

larger : (m n : ℕ) → n < m → ltb m n ≡ false
larger m n h = ground arith

-- Digits of one width are ordered as the numbers that they spell.
lt_text-spelled :
    (a : ℕ) (s t : Text)
    → length s ≡ length t
    → All IsDecimal s
    → All IsDecimal t
    → lt_text s t ≡ ltb (spelled a s) (spelled a t)
unfolding spelled IsDecimal
lt_text-spelled a [] [] e hs ht = ground arith
lt_text-spelled a [] (d ∷ t) e hs ht = absurd (omega arith)
lt_text-spelled a (c ∷ s) [] e hs ht = absurd (omega arith)
lt_text-spelled a (c ∷ s) (d ∷ t) e hs ht =
    let c' = a * 10 + (c - b'0') in
    let d' = a * 10 + (d - b'0') in
    let widths : length s ≡ length t = omega arith in
    elim (Bool-cases (c == d)) [
      | inl same ↦
          let heads : c ≡ d = ground arith in
          let first : d' ≡ c' = omega arith in
          rw (same, first) (lt_text-spelled c' s t widths hs.1 ht.1)
      | inr other ↦ elim (Bool-cases (ltb c d)) [
        | inl less ↦
            let h : c' < d' = ground (arith, hs.0.0) in
            rw (other, less)
              (sym
                (smaller (spelled c' s) (spelled d' t) (spelled_lt c' d' s t widths hs.1 ht.1 h)))
        | inr more ↦
            let h : d' < c' = ground (arith, ht.0.0) in
            rw (other, more)
              (sym (
                larger (spelled c' s) (spelled d' t)
                  (spelled_lt d' c' t s (sym widths) ht.1 hs.1 h)))
      ]
    ]

lt_text-append : (p s t : Text) → lt_text (p ++ s) (p ++ t) ≡ lt_text s t
lt_text-append [] s t = refl
lt_text-append (c ∷ p) s t = let e : (c == c) ≡ true = ground arith in rw e (lt_text-append p s t)

spelled-zero_pad : (w n : ℕ) → spelled 0 (zero_pad w (render 10 n)) ≡ n
spelled-zero_pad w n =
    let t = zero_pad w (render 10 n) in
    let both : ok (spelled 0 t) ≡ ok n =
      sym (read_digits-spelled 0 t (zero_pad-IsDecimal w n))
      ∙ read_digits-zero_pad 10 (omega arith) (omega arith) w n in
    cc both

format_int-order :
    (w m n : ℕ)
    → 0 < w
    → m < 10 ^ w
    → n < 10 ^ w
    → lt_text (format_int 10 w (pos m)) (format_int 10 w (pos n)) ≡ ltb m n
unfolding format_int
format_int-order w m n p hm hn =
    let s = zero_pad w (render 10 m) in
    let t = zero_pad w (render 10 n) in
    let same : length s ≡ length t =
      length-zero_pad 10 (omega arith) (omega arith) w m p hm
      ∙ sym (length-zero_pad 10 (omega arith) (omega arith) w n p hn) in
    let value_m : spelled 0 s ≡ m = spelled-zero_pad w m in
    let value_n : spelled 0 t ≡ n = spelled-zero_pad w n in
    lt_text-spelled 0 s t same (zero_pad-IsDecimal w m) (zero_pad-IsDecimal w n)
    ∙ ap (λ k. ltb k (spelled 0 t)) value_m
    ∙ ap (λ k. ltb m k) value_n

-- The capped values that range queries compare, under one prefix and one size of the groups, are in
-- the order of the groups, as long as the number of a group has at most 12 digits.
pub capped_wide-order :
    (prefix : Text) (num_unique i j : ℕ)
    → i < 10 ^ 12
    → j < 10 ^ 12
    → lt_text (capped_wide prefix num_unique (pos i)) (capped_wide prefix num_unique (pos j))
      ≡ ltb i j
unfolding capped_wide
capped_wide-order prefix num_unique i j hi hj =
    let number = decimal (pos num_unique) in
    let rest = λ (k : ℕ). number ++ b'_' ∷ format_int 10 12 (pos k) in
    lt_text-append prefix (b'_' ∷ rest i) (b'_' ∷ rest j)
    ∙ lt_text-append number (b'_' ∷ format_int 10 12 (pos i)) (b'_' ∷ format_int 10 12 (pos j))
    ∙ format_int-order 12 i j (omega arith) hi hj

-- Between `capped_small` and `capped_small_range` of a static document, both excluded, stand exactly
-- the capped values of the groups behind its own, up to the distance, which is not counted, as long
-- as the numbers of the groups have at most 12 digits.
pub build_capped_wide-range :
    (draw : ℕ) (a : Text) (number distance group : ℕ)
    → number / 100 + distance < 10 ^ 12
    → group < 10 ^ 12
    → Returns (build_capped_wide (codes "n1ql") draw a (pos number) 100) λ low.
      Returns
        (build_capped_wide (codes "n1ql") draw a (pos number +ℤ pos (distance * 100)) 100)
        λ high.
          let it = capped_wide (codes "n1ql") 100 (pos group) in
          (lt_text low it && lt_text it high)
          ≡ (ltb (number / 100) group && ltb group (number / 100 + distance))
unfolding build_capped_wide
build_capped_wide-range draw a number distance group h k =
    let p = codes "n1ql" in
    let high : (number + distance * 100) / 100 ≡ number / 100 + distance = omega arith in
    rw
      (
        pos-+ℤ number (distance * 100),
        high,
        capped_wide-order p 100 (number / 100) group (omega arith) k,
        capped_wide-order p 100 group (number / 100 + distance) k h,
      )
      refl
