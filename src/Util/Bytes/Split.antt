-- ===== src/Util/Bytes/Split.antt =====
-- Texts of digits and a suffix: how they are trimmed, split and read.
use motor.Base.{
  ℕ, ◌+◌, ◌-◌, ◌*◌, ◌≤◌, Text, true, false, ◌≡◌, ◌≢◌, refl, ap, ◌∙◌, none, some, [], ◌∷◌, ◌++◌,
  arith, All, is_empty,
}
use motor.Util.Bytes.{
  is_space, is_digit, trim_start, trim_end, trim_space, digits_value, in_range, unsigned, parse_int,
  onto, split,
}

abbrev pub IsDigits : Text → Type 0
IsDigits s = All (λ c. is_digit c ≡ true) s

digit-not_space : (c : ℕ) → is_digit c ≡ true → is_space c ≡ false
unfolding is_digit is_space
digit-not_space c h = ground arith

digit-not_sign : (c : ℕ) → is_digit c ≡ true → (c ≢ b'-') × (c ≢ b'+')
unfolding is_digit
digit-not_sign c h = ((λ e. ground (arith, e)), (λ e. ground (arith, e)))

pub split-append :
    (d : Text) (c : ℕ) (w : Text)
    → IsDigits d
    → is_digit c ≡ false
    → split (d ++ (c ∷ w)) ≡ some (d, c ∷ w)
unfolding split onto
split-append [] c w h n = rw (n, split) refl
split-append (x ∷ d) c w h n = ground (arith, split-append d c w h.1 n, h.0)

digits_value-append :
    (n : ℕ) (d : Text) (c : ℕ) (w : Text)
    → is_digit c ≡ false
    → digits_value n (d ++ (c ∷ w)) ≡ none
unfolding digits_value
digits_value-append n [] c w h = ground arith
digits_value-append n (x ∷ d) c w h =
    ground (arith, digits_value-append (n * 10 + (x - b'0')) d c w h)

pub trim_start-digit : (c : ℕ) (s : Text) → is_space c ≡ false → trim_start (c ∷ s) ≡ c ∷ s
unfolding trim_start
trim_start-digit c s h = ground (arith, h)

is_empty-append : (s t : Text) → is_empty t ≡ false → is_empty (s ++ t) ≡ false
unfolding is_empty
is_empty-append [] t h = h
is_empty-append (c ∷ s) t h = refl

-- A text that ends with what is no space keeps its end.
trim_end-append : (s t : Text) → is_empty (trim_end t) ≡ false → trim_end (s ++ t) ≡ s ++ trim_end t
unfolding trim_end is_empty
trim_end-append [] t h = refl
trim_end-append (c ∷ s) t h =
    rw (trim_end-append s t h) (ground (arith, is_empty-append s (trim_end t) h))

trim_end-digits : (d : Text) → IsDigits d → trim_end d ≡ d
unfolding trim_end
trim_end-digits [] h = refl
trim_end-digits (c ∷ d) h = ground (arith, trim_end-digits d h.1, digit-not_space c h.0)

pub trim_space-digits : (d : Text) → IsDigits d → trim_space d ≡ d
unfolding trim_space
trim_space-digits [] h = unfold trim_start trim_end in refl
trim_space-digits (c ∷ d) h =
    rw (trim_start-digit c d (digit-not_space c h.0)) (trim_end-digits (c ∷ d) h)

-- Digits before a rune that is no digit and no space are no int64.
pub parse_int-append :
    (d : Text) (c : ℕ) (w : Text)
    → IsDigits d
    → is_digit c ≡ false
    → c ≢ b'-'
    → c ≢ b'+'
    → parse_int (d ++ (c ∷ w)) ≡ none
unfolding parse_int unsigned in_range
parse_int-append [] c w h n minus plus = let e = digits_value-append 0 [] c w n in ground (arith, e)
parse_int-append (x ∷ d) c w h n minus plus =
    let e = digits_value-append 0 (x ∷ d) c w n in
    let (no_minus, no_plus) = digit-not_sign x h.0 in ground (arith, e, no_minus, no_plus)

pub trim_end-kept : (c : ℕ) (w : Text) → is_space c ≡ false → trim_end (c ∷ w) ≡ c ∷ trim_end w
unfolding trim_end
trim_end-kept c w n = ground (arith, n)

trim_start-append :
    (d : Text) (c : ℕ) (w : Text)
    → IsDigits d
    → is_space c ≡ false
    → trim_start (d ++ (c ∷ w)) ≡ d ++ (c ∷ w)
trim_start-append [] c w h n = trim_start-digit c w n
trim_start-append (x ∷ d) c w h n = trim_start-digit x (d ++ (c ∷ w)) (digit-not_space x h.0)

pub trim_space-append :
    (d : Text) (c : ℕ) (w : Text)
    → IsDigits d
    → is_space c ≡ false
    → trim_space (d ++ (c ∷ w)) ≡ d ++ (c ∷ trim_end w)
unfolding trim_space is_empty
trim_space-append d c w h n =
    ap trim_end (trim_start-append d c w h n)
    ∙ trim_end-append d (c ∷ w) (rw (trim_end-kept c w n) refl)
    ∙ ap (λ t. d ++ t) (trim_end-kept c w n)

-- What begins a suffix: no digit, no space and no sign.
abbrev pub Begins : ℕ → Type 0
Begins c = (is_digit c ≡ false) × (is_space c ≡ false) × (c ≢ b'-') × (c ≢ b'+')

pub capital-Begins : (c : ℕ) → b'A' ≤ c → Begins c
unfolding is_digit is_space
capital-Begins c h = ground arith
