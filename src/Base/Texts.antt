-- ===== src/Base/Texts.antt =====
-- Go strings as lists of bytes, with the functions of `strings` and `path/filepath` that the
-- program calls. Letters are those of ASCII.
use Prim.Native.Nat.{ℕ, ◌+◌, ◌-◌}
use Prim.Native.Char.{code}
use Prim.Native.String.{String}
use mathlib.Core.Path.{◌≡◌, refl}
use mathlib.Core.Logic.{◌↔◌, ◌≢◌}
use mathlib.Core.Bool.{Bool, true, false, ◌&&◌, ◌||◌}
use mathlib.Core.List.{List, [], ◌∷◌, ◌++◌, map}
use native.Mathlib.Omega.{arith}
use motor.Base.Tests.{leb, ◌==◌, if◌then◌else◌}
use motor.Base.Lists.{length, drop}

abbrev pub Text : Type 0
Text = List ℕ

-- A literal of the source, by its bytes.
abbrev pub lit : String → Text
lit String.[] = []
lit (String.◌∷◌ c s) = code c ∷ lit s

abbrev pub slash : ℕ
slash = b'/'

unfoldable pub text_eq : Text → Text → Bool
text_eq [] [] = true
text_eq (a ∷ s) (b ∷ t) = a == b && text_eq s t
text_eq _ _ = false

pub text_eq_iff : (s t : Text) → (text_eq s t ≡ true) ↔ (s ≡ t)
unfolding text_eq
text_eq_iff [] [] = ground arith
text_eq_iff [] (b ∷ t) = ground arith
text_eq_iff (a ∷ s) [] = ground arith
text_eq_iff (a ∷ s) (b ∷ t) = ground (arith, text_eq_iff s t)

pub text_eq_refl : (s : Text) → text_eq s s ≡ true
text_eq_refl s = (text_eq_iff s s).1 refl

unfoldable pub is_empty : Text → Bool
is_empty [] = true
is_empty (a ∷ s) = false

-- strings.HasPrefix(s, p)
unfoldable pub has_prefix : Text → Text → Bool
has_prefix s [] = true
has_prefix [] (b ∷ p) = false
has_prefix (a ∷ s) (b ∷ p) = a == b && has_prefix s p

-- strings.HasSuffix(s, t)
unfoldable pub has_suffix : Text → Text → Bool
unfolding text_eq
has_suffix s t =
    if leb (length t) (length s) then text_eq (drop (length s - length t) s) t else false

-- strings.TrimRight(s, c), for a cutset of one byte
unfoldable pub trim_right : ℕ → Text → Text
unfolding is_empty
trim_right c [] = []
trim_right c (x ∷ s) = let rest = trim_right c s in if is_empty rest && x == c then [] else x ∷ rest

lower_byte : ℕ → ℕ
lower_byte c = if leb b'A' c && leb c b'Z' then c + 32 else c

-- strings.ToLower(s)
unfoldable pub to_lower : Text → Text
unfolding lower_byte
to_lower s = map lower_byte s

has_byte : ℕ → Text → Bool
has_byte c [] = false
has_byte c (x ∷ s) = x == c || has_byte c s

-- what follows the last `c`
after_last : ℕ → Text → Text
unfolding has_byte
after_last c [] = []
after_last c (x ∷ s) =
    let rest = after_last c s in if has_byte c s then rest else if x == c then s else x ∷ s

-- filepath.Base(p)
unfoldable pub base_name : Text → Text
unfolding trim_right after_last is_empty
base_name p =
    if is_empty p
    then lit "."
    else let q = trim_right slash p in if is_empty q then lit "/" else after_last slash q

base_name_example : base_name (lit "conf/a.toml//") ≡ lit "a.toml"
unfolding base_name
base_name_example = refl

lower_byte_idem : (c : ℕ) → lower_byte (lower_byte c) ≡ lower_byte c
unfolding lower_byte
lower_byte_idem c = ground arith

map-lower_byte_idem : (s : Text) → map lower_byte (map lower_byte s) ≡ map lower_byte s
map-lower_byte_idem [] = refl
map-lower_byte_idem (c ∷ s) = cc (lower_byte_idem c, map-lower_byte_idem s)

pub to_lower_idem : (s : Text) → to_lower (to_lower s) ≡ to_lower s
unfolding to_lower
to_lower_idem s = map-lower_byte_idem s

pub has_prefix_append : (s t : Text) → has_prefix (s ++ t) s ≡ true
unfolding has_prefix
has_prefix_append [] t = ground arith
has_prefix_append (a ∷ s) t = ground (arith, has_prefix_append s t)

has_prefix-nil : (p : Text) → has_prefix [] p ≡ true → p ≡ []
unfolding has_prefix
has_prefix-nil [] h = refl
has_prefix-nil (b ∷ p) h = cc

-- Trimming keeps the order of prefixes.
pub has_prefix-trim_right :
    (c : ℕ) (s t : Text) → has_prefix (trim_right c (s ++ t)) (trim_right c s) ≡ true
unfolding has_prefix trim_right
has_prefix-trim_right c [] t = ground arith
has_prefix-trim_right c (x ∷ s) t =
    let rest : Text = trim_right c s in
    let rest' : Text = trim_right c (s ++ t) in
    ground (arith, has_prefix-trim_right c s t, has_prefix-nil (trim_right c s))

-- A trimmed text does not end with the byte.
pub trim_right_idem : (c : ℕ) (s : Text) → trim_right c (trim_right c s) ≡ trim_right c s
unfolding trim_right
trim_right_idem c [] = refl
trim_right_idem c (x ∷ s) = ground (arith, trim_right_idem c s)

-- How often a text stands in a list.
unfoldable pub occurrences : Text → List Text → ℕ
occurrences k [] = 0
occurrences k (j ∷ ks) = (if text_eq j k then 1 else 0) + occurrences k ks

pub text_ne : (s t : Text) → text_eq s t ≡ false → s ≢ t
text_ne s t h e = ground (arith, text_eq_iff s t)
