-- ===== src/Util/Bytes/Parsed.antt =====
-- What StringToBytes makes of counts with a unit, and of what BytesToString prints.
use mathlib.Core.List.{append_assoc}
use motor.Base.{
  ℕ, zero, suc, ◌+◌, ◌≤◌, Text, lit, true, false, ◌≡◌, ◌⊎◌, refl, sym, ap, subst, ◌∙◌, inl, inr,
  none, some, [], ◌∷◌, ◌++◌, arith, Bool-cases, ◌==◌, is_empty, lookup, text_eq, if◌then◌else◌,
}
use motor.Util.Bytes.{
  Float64, unknown_suffix, ok, err, is_space, is_digit, trim_start, trim_end, trim_space, to_upper,
  parse_int, unit, unit_map, scaled, with_unit, of_split, of_trimmed, string_to_bytes, in_unit,
  round, bytes_to_string,
}
use motor.Util.Bytes.Split.{
  IsDigits, split-append, trim_start-digit, trim_space-digits, parse_int-append, trim_end-kept,
  trim_space-append, Begins, capital-Begins,
}

module _ {F : Type 0} (float : Float64 F) where
  -- A text of digits and then a suffix comes to the count and the unit of the suffix.
  string_to_bytes-append :
      (d : Text) (c : ℕ) (w : Text)
      → IsDigits d
      → Begins c
      → string_to_bytes float (d ++ (c ∷ w))
        ≡ with_unit float d (lookup (to_upper (trim_space (c ∷ trim_end w))) (unit_map float))
  unfolding string_to_bytes of_trimmed of_split
  string_to_bytes-append d c w h (n, s, minus, plus) =
      let t = d ++ (c ∷ trim_end w) in
      ap (λ x. of_trimmed float x (parse_int x)) (trim_space-append d c w h s)
      ∙ ap (of_trimmed float t) (parse_int-append d c (trim_end w) h n minus plus)
      ∙ ap (of_split float) (split-append d c (trim_end w) h n)
      ∙ ap
          (λ x.
            with_unit float x (lookup (to_upper (trim_space (c ∷ trim_end w))) (unit_map float)))
          (trim_space-digits d h)

  no_unit : (w : Text) → lookup (to_upper (trim_space (b'.' ∷ w))) (unit_map float) ≡ none
  unfolding trim_space lookup to_upper unit_map text_eq
  no_unit w =
      let e : trim_space (b'.' ∷ w) ≡ b'.' ∷ trim_end w =
        ap trim_end (trim_start-digit b'.' w (unfold is_space in refl))
        ∙ trim_end-kept b'.' w (unfold is_space in refl) in
      subst (λ s. lookup (to_upper s) (unit_map float) ≡ none) (sym e) refl

  -- A count with a fraction is refused, whatever stands behind the point.
  pub string_to_bytes-fraction :
      (d rest : Text) → IsDigits d → string_to_bytes float (d ++ (b'.' ∷ rest)) ≡ err unknown_suffix
  unfolding with_unit is_digit is_space
  string_to_bytes-fraction d rest h =
      string_to_bytes-append d b'.' rest h
        (refl, refl, (λ e. ground (arith, e)), (λ e. ground (arith, e)))
      ∙ ap (with_unit float d) (no_unit (trim_end rest))

  -- The names that BytesToString writes.
  abbrev unit_name : ℕ → Text
  unit_name i =
      if i == 5
      then lit "PB"
      else if i == 4
      then lit "TB"
      else if i == 3
      then lit "GB"
      else if i == 2
      then lit "MB"
      else if i == 1
      then lit "KB"
      else lit "B"

  -- The value is at least so many bytes, and less than the next unit.
  abbrev pub IsLargest : F → ℕ → Type 0
  IsLargest x i =
      (i ≤ 5)
      × (float.ge x (unit float i) ≡ true)
      × ((i ≡ 5) ⊎ (float.ge x (unit float (i + 1)) ≡ false))

  -- The value in the unit; bytes are not divided.
  abbrev pub counted : F → ℕ → F
  counted x i = if i == 0 then x else float.div x (unit float i)

  in_unit-IsLargest :
      (x : F)
      → float.ge x (unit float 0) ≡ true
      → (i : ℕ) × IsLargest x i × (in_unit float x ≡ (unit_name i, counted x i))
  unfolding in_unit
  in_unit-IsLargest x h = elim (Bool-cases (float.ge x (unit float 5))) [
    | inl p5 ↦ (5, (omega arith, p5, inl refl), rw (p5, in_unit) refl)
    | inr p5 ↦ elim (Bool-cases (float.ge x (unit float 4))) [
      | inl p4 ↦ (4, (omega arith, p4, inr p5), rw (p5, p4, in_unit) refl)
      | inr p4 ↦ elim (Bool-cases (float.ge x (unit float 3))) [
        | inl p3 ↦ (3, (omega arith, p3, inr p4), rw (p5, p4, p3, in_unit) refl)
        | inr p3 ↦ elim (Bool-cases (float.ge x (unit float 2))) [
          | inl p2 ↦ (2, (omega arith, p2, inr p3), rw (p5, p4, p3, p2, in_unit) refl)
          | inr p2 ↦ elim (Bool-cases (float.ge x (unit float 1))) [
            | inl p1 ↦ (1, (omega arith, p1, inr p2), rw (p5, p4, p3, p2, p1, in_unit) refl)
            | inr p1 ↦ (0, (omega arith, h, inr p1), rw (p5, p4, p3, p2, p1, h, in_unit) refl)
          ]
        ]
      ]
    ]
  ]

  string_to_bytes-unit_name :
      (d : Text) (i : ℕ)
      → IsDigits d
      → i ≤ 5
      → string_to_bytes float (d ++ unit_name i) ≡ scaled float (unit float i) (float.parse_float d)
  unfolding with_unit trim_space trim_start trim_end is_space is_digit is_empty to_upper lookup
      text_eq unit_map
  string_to_bytes-unit_name d zero h le =
      string_to_bytes-append d b'B' [] h (capital-Begins b'B' (omega arith)) ∙ refl
  string_to_bytes-unit_name d (suc zero) h le =
      string_to_bytes-append d b'K' (lit "B") h (capital-Begins b'K' (omega arith)) ∙ refl
  string_to_bytes-unit_name d (suc (suc zero)) h le =
      string_to_bytes-append d b'M' (lit "B") h (capital-Begins b'M' (omega arith)) ∙ refl
  string_to_bytes-unit_name d (suc (suc (suc zero))) h le =
      string_to_bytes-append d b'G' (lit "B") h (capital-Begins b'G' (omega arith)) ∙ refl
  string_to_bytes-unit_name d (suc (suc (suc (suc zero)))) h le =
      string_to_bytes-append d b'T' (lit "B") h (capital-Begins b'T' (omega arith)) ∙ refl
  string_to_bytes-unit_name d (suc (suc (suc (suc (suc zero))))) h le =
      string_to_bytes-append d b'P' (lit "B") h (capital-Begins b'P' (omega arith)) ∙ refl
  string_to_bytes-unit_name d (suc (suc (suc (suc (suc (suc i)))))) h le = absurd (omega arith)

  -- What BytesToString prints for a value of a byte or more, where its rounded count prints as
  -- digits that ParseFloat reads back: StringToBytes gives that count times the largest unit that
  -- the value reaches, which is the unit that the value was divided by.
  pub string_to_bytes-bytes_to_string :
      (x : F)
      → float.ge x (unit float 0) ≡ true
      → let r = round float (in_unit float x).1 2 in
        IsDigits (float.format_float r)
        → float.parse_float (float.format_float r) ≡ some r
        → (i : ℕ) × IsLargest x i
          × ((in_unit float x).1 ≡ counted x i)
          × (string_to_bytes float (bytes_to_string float x) ≡ ok (float.mul r (unit float i)))
  unfolding bytes_to_string scaled
  string_to_bytes-bytes_to_string x h digits read =
      let (i, largest, e) = in_unit-IsLargest x h in
      let r = round float (in_unit float x).1 2 in
      (
        i,
        largest,
        ap (λ p. p.1) e,
        ap (λ (p : Text × F). string_to_bytes float (float.format_float r ++ p.0)) e
            ∙ string_to_bytes-unit_name (float.format_float r) i digits largest.0
            ∙ ap (scaled float (unit float i)) read,
      )

  -- What BytesToString prints for a value whose rounded count has a fraction, StringToBytes
  -- refuses.
  string_to_bytes-printed_fraction :
      (x : F) (d rest : Text)
      → IsDigits d
      → float.format_float (round float (in_unit float x).1 2) ≡ d ++ (b'.' ∷ rest)
      → string_to_bytes float (bytes_to_string float x) ≡ err unknown_suffix
  unfolding bytes_to_string
  string_to_bytes-printed_fraction x d rest h e =
      let name = (in_unit float x).0 in
      ap (λ s. string_to_bytes float (s ++ name)) e
      ∙ ap (string_to_bytes float) (append_assoc d (b'.' ∷ rest) name)
      ∙ string_to_bytes-fraction d (rest ++ name) h
