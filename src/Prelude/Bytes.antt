-- ===== src/Prelude/Bytes.antt =====
-- `struct` with little-endian fields, and the hexadecimal text of bytes. A byte string is a list of
-- numbers, and so is a text: the codes of its characters.
use Prim.Native.Nat.{ℕ, zero, suc, ◌+◌, ◌-◌, ◌*◌, ◌/◌, ◌%◌, ◌^◌, ◌<◌}
use mathlib.Core.Path.{◌≡◌, refl, ap, ap₂, ◌∙◌}
use mathlib.Core.Bool.{◌&&◌}
use mathlib.Core.List.{List, [], ◌∷◌, ◌++◌, map, append_assoc}
use mathlib.Core.Option.{Option, none, some}
use native.Mathlib.Omega.{arith}
use native.Mathlib.Nat.{pow-suc}
use ag_infer.Prelude.Tests.{ltb, leb, if◌then◌else◌}
use ag_infer.Prelude.Lists.{length, length-append, take, drop}

-- The field of a number, `width` bytes wide.
unfoldable pub le : ℕ → ℕ → List ℕ
le zero n = []
le (suc width) n = n % 256 ∷ le width (n / 256)

unfoldable pub number : List ℕ → ℕ
number [] = 0
number (b ∷ bs) = b + 256 * number bs

pub length-le : (width n : ℕ) → length (le width n) ≡ width
unfolding le
length-le zero n = refl
length-le (suc width) n = ap suc (length-le width (n / 256))

pub number-le : (width n : ℕ) → n < 256 ^ width → number (le width n) ≡ n
unfolding number le
number-le zero n h = omega arith
number-le (suc width) n h =
    let rest = number-le width (n / 256) (omega (arith, pow-suc 256 width)) in omega arith

-- The fields of a packed structure, one behind the other.
unfoldable pub concat : List (List ℕ) → List ℕ
concat [] = []
concat (x ∷ xs) = x ++ concat xs

-- The fields of the given widths at the front of the bytes.
unfoldable pub chunks : List ℕ → List ℕ → List (List ℕ)
chunks [] bytes = []
chunks (w ∷ ws) bytes = take w bytes ∷ chunks ws (drop w bytes)

pub take-append : {A : Type 0} (xs ys : List A) → take (length xs) (xs ++ ys) ≡ xs
take-append [] ys = refl
take-append (x ∷ xs) ys = ap (λ l. x ∷ l) (take-append xs ys)

pub drop-append : {A : Type 0} (xs ys : List A) → drop (length xs) (xs ++ ys) ≡ ys
drop-append [] ys = refl
drop-append (x ∷ xs) ys = drop-append xs ys

pub chunks-concat :
    (xs : List (List ℕ)) (rest : List ℕ) → chunks (map length xs) (concat xs ++ rest) ≡ xs
unfolding chunks concat
chunks-concat [] rest = refl
chunks-concat (x ∷ xs) rest = rw append_assoc (
    ap₂ ◌∷◌ (take-append x (concat xs ++ rest))
      (ap (chunks (map length xs)) (drop-append x (concat xs ++ rest)) ∙ chunks-concat xs rest))

abbrev pub sum_lengths : List (List ℕ) → ℕ
sum_lengths [] = 0
sum_lengths (x ∷ xs) = length x + sum_lengths xs

pub length-concat : (xs : List (List ℕ)) → length (concat xs) ≡ sum_lengths xs
unfolding concat
length-concat [] = refl
length-concat (x ∷ xs) = omega (arith, length-append x (concat xs), length-concat xs)

-- The digit of a number below sixteen, and its value.
abbrev pub hex_digit : ℕ → ℕ
hex_digit n = if ltb n 10 then n + 48 else n + 87

abbrev pub hex_value : ℕ → Option ℕ
hex_value c =
    if leb 48 c && leb c 57
    then some (c - 48)
    else if leb 97 c && leb c 102
    then some (c - 87)
    else none

-- `bytes.hex()`
unfoldable pub to_hex : List ℕ → List ℕ
to_hex [] = []
to_hex (b ∷ bs) = hex_digit (b / 16) ∷ hex_digit (b % 16) ∷ to_hex bs

-- `bytes.fromhex` on lower-case digits. It also takes upper-case digits and white space, which the
-- callers refuse, since the text must be the `hex()` of its bytes.
unfoldable pub from_hex : List ℕ → Option (List ℕ)
from_hex [] = some []
from_hex (c ∷ []) = none
from_hex (c ∷ d ∷ rest) = elim (hex_value c) [
  | none ↦ none
  | some hi ↦ elim (hex_value d) [
    | none ↦ none
    | some lo ↦ elim (from_hex rest) [ none ↦ none | some bs ↦ some ((hi * 16 + lo) ∷ bs) ]
  ]
]
