-- ===== src/Base/Utf8.antt =====
-- The bytes of a Rust `str`, and `String::from_utf8`.
use Prim.Native.Char.{Char, code}
use Prim.Native.Nat.{ℕ, ◌+◌, ◌-◌, ◌*◌, ◌/◌, ◌%◌, ◌<◌}
use Prim.Native.String.{String}
use mathlib.Core.Path.{◌≡◌, refl, ap, ◌∙◌}
use mathlib.Core.Logic.{inl, inr}
use mathlib.Core.Bool.{Bool, true, false, ◌&&◌}
use mathlib.Core.Option.{Option, none, some}
use mathlib.Core.List.{List, [], ◌∷◌, ◌++◌}
use native.Mathlib.Omega.{arith}
use slopd.Base.Scalar.{char_of, char_of-code, code-lt}
use slopd.Base.Lists.{All, All-append}
use slopd.Base.Tests.{ltb, leb, if◌then◌else◌, map_option, Bool-cases}

abbrev pub char_bytes : ℕ → List ℕ
char_bytes c =
    if ltb c 128
    then c ∷ []
    else if ltb c 2048
    then (192 + c / 64) ∷ (128 + c % 64) ∷ []
    else if ltb c 65536
    then (224 + c / 4096) ∷ (128 + c / 64 % 64) ∷ (128 + c % 64) ∷ []
    else (240 + c / 262144) ∷ (128 + c / 4096 % 64) ∷ (128 + c / 64 % 64) ∷ (128 + c % 64) ∷ []

unfoldable pub as_bytes : String → List ℕ
as_bytes String.[] = []
as_bytes (String.◌∷◌ c s) = char_bytes (code c) ++ as_bytes s

char_bytes-lt : (n : ℕ) → n < 1114112 → All (λ b. b < 256) (char_bytes n)
char_bytes-lt n h = elim (Bool-cases (ltb n 128)) [
  | inl one ↦ rw one (ground arith, tt)
  | inr n1 ↦ elim (Bool-cases (ltb n 2048)) [
    | inl two ↦ rw (n1, two) (ground arith, (omega arith, tt))
    | inr n2 ↦ elim (Bool-cases (ltb n 65536)) [
      | inl three ↦ rw (n1, n2, three) (ground arith, (omega arith, (omega arith, tt)))
      | inr n3 ↦ rw (n1, n2, n3) (omega arith, (omega arith, (omega arith, (omega arith, tt))))
    ]
  ]
]

pub as_bytes-lt : (s : String) → All (λ b. b < 256) (as_bytes s)
unfolding as_bytes
as_bytes-lt String.[] = tt
as_bytes-lt (String.◌∷◌ c s) =
    All-append (λ b. b < 256) (char_bytes (code c)) (as_bytes s)
      (char_bytes-lt (code c) (code-lt c)) (as_bytes-lt s)

abbrev is_continuation : ℕ → Bool
is_continuation b = leb 128 b && ltb b 192

abbrev cons_char : Option Char → Option String → Option String
cons_char none s = none
cons_char (some c) s = map_option (String.◌∷◌ c) s

abbrev guarded : Bool → Option Char → Option Char
guarded true c = c
guarded false c = none

abbrev two : ℕ → ℕ → Option Char
two a b = guarded (leb 194 a && is_continuation b) (char_of ((a - 192) * 64 + (b - 128)))

abbrev three : ℕ → ℕ → ℕ → Option Char
three a b c =
    let n = (a - 224) * 4096 + (b - 128) * 64 + (c - 128) in
    guarded (leb 2048 n && is_continuation b && is_continuation c) (char_of n)

abbrev four : ℕ → ℕ → ℕ → ℕ → Option Char
four a b c d =
    let n = (a - 240) * 262144 + (b - 128) * 4096 + (c - 128) * 64 + (d - 128) in
    guarded (leb 65536 n && is_continuation b && is_continuation c && is_continuation d) (char_of n)

-- `String::from_utf8`: no overlong form, no surrogate, nothing above 0x10ffff.
unfoldable pub from_utf8 : List ℕ → Option String
unfolding char_of
from_utf8 [] = some String.[]
from_utf8 (a ∷ []) = if ltb a 128 then cons_char (char_of a) (some String.[]) else none
from_utf8 (a ∷ b ∷ []) =
    let one_byte = cons_char (char_of a) (from_utf8 (b ∷ [])) in
    if ltb a 128 then one_byte else if ltb a 224 then cons_char (two a b) (some String.[]) else none
from_utf8 (a ∷ b ∷ c ∷ []) =
    let one_byte = cons_char (char_of a) (from_utf8 (b ∷ c ∷ [])) in
    let two_bytes = cons_char (two a b) (from_utf8 (c ∷ [])) in
    if ltb a 128
    then one_byte
    else if ltb a 224
    then two_bytes
    else if ltb a 240
    then cons_char (three a b c) (some String.[])
    else none
from_utf8 (a ∷ b ∷ c ∷ d ∷ bs) =
    let one_byte = cons_char (char_of a) (from_utf8 (b ∷ c ∷ d ∷ bs)) in
    let two_bytes = cons_char (two a b) (from_utf8 (c ∷ d ∷ bs)) in
    let three_bytes = cons_char (three a b c) (from_utf8 (d ∷ bs)) in
    let four_bytes = cons_char (four a b c d) (from_utf8 bs) in
    if ltb a 128
    then one_byte
    else if ltb a 224
    then two_bytes
    else if ltb a 240
    then three_bytes
    else four_bytes

from_utf8-one :
    (a : ℕ) (bs : List ℕ)
    → ltb a 128 ≡ true
    → from_utf8 (a ∷ bs) ≡ cons_char (char_of a) (from_utf8 bs)
unfolding from_utf8
from_utf8-one a [] h = rw h
from_utf8-one a (b ∷ []) h = rw h
from_utf8-one a (b ∷ c ∷ []) h = rw h
from_utf8-one a (b ∷ c ∷ d ∷ bs) h = rw h

from_utf8-two :
    (a b : ℕ) (bs : List ℕ)
    → ltb a 128 ≡ false
    → ltb a 224 ≡ true
    → from_utf8 (a ∷ b ∷ bs) ≡ cons_char (two a b) (from_utf8 bs)
unfolding from_utf8
from_utf8-two a b [] h k = rw (h, k)
from_utf8-two a b (c ∷ []) h k = rw (h, k)
from_utf8-two a b (c ∷ d ∷ bs) h k = rw (h, k)

from_utf8-three :
    (a b c : ℕ) (bs : List ℕ)
    → ltb a 128 ≡ false
    → ltb a 224 ≡ false
    → ltb a 240 ≡ true
    → from_utf8 (a ∷ b ∷ c ∷ bs) ≡ cons_char (three a b c) (from_utf8 bs)
unfolding from_utf8
from_utf8-three a b c [] h k l = rw (h, k, l)
from_utf8-three a b c (d ∷ bs) h k l = rw (h, k, l)

from_utf8-four :
    (a b c d : ℕ) (bs : List ℕ)
    → ltb a 128 ≡ false
    → ltb a 224 ≡ false
    → ltb a 240 ≡ false
    → from_utf8 (a ∷ b ∷ c ∷ d ∷ bs) ≡ cons_char (four a b c d) (from_utf8 bs)
unfolding from_utf8
from_utf8-four a b c d bs h k l = rw (h, k, l)

guarded-char_of :
    (b : Bool) (n : ℕ) (c : Char) → b ≡ true → n ≡ code c → guarded b (char_of n) ≡ some c
guarded-char_of b n c h e = rw h (ap char_of e ∙ char_of-code c)

char-read :
    (o : Option Char) (t bs : List ℕ) (c : Char) (s : String)
    → from_utf8 t ≡ cons_char o (from_utf8 bs)
    → o ≡ some c
    → from_utf8 bs ≡ some s
    → from_utf8 t ≡ some (String.◌∷◌ c s)
char-read o t bs c s split read rest =
    split ∙ ap (λ p. cons_char p (from_utf8 bs)) read ∙ ap (cons_char (some c)) rest

-- The bytes of a character are read as that character, whatever follows.
from_utf8-char :
    (c : Char) (bs : List ℕ) (s : String)
    → from_utf8 bs ≡ some s
    → from_utf8 (char_bytes (code c) ++ bs) ≡ some (String.◌∷◌ c s)
from_utf8-char c bs s h =
    let n = code c in
    elim (Bool-cases (ltb n 128)) [
      | inl one ↦
          rw one (char-read (char_of n) _ bs c s (from_utf8-one n bs one) (char_of-code c) h)
      | inr n1 ↦ elim (Bool-cases (ltb n 2048)) [
        | inl small ↦
            rw (n1, small)
              (char-read _ _ bs c s
                (from_utf8-two (192 + n / 64) (128 + n % 64) bs (ground arith) (ground arith))
                (guarded-char_of _ _ c (ground arith) (omega arith)) h)
        | inr n2 ↦ elim (Bool-cases (ltb n 65536)) [
          | inl middle ↦
              rw (n1, n2, middle)
                (char-read _ _ bs c s
                  (from_utf8-three (224 + n / 4096) (128 + n / 64 % 64) (128 + n % 64) bs
                    (ground arith) (ground arith) (ground arith))
                  (guarded-char_of _ _ c (ground arith) (omega arith)) h)
          | inr n3 ↦
              rw (n1, n2, n3)
                (char-read _ _ bs c s
                  (from_utf8-four (240 + n / 262144) (128 + n / 4096 % 64) (128 + n / 64 % 64)
                    (128 + n % 64) bs (ground arith) (ground arith) (ground arith))
                  (guarded-char_of _ _ c (ground arith) (omega arith)) h)
        ]
      ]
    ]

pub from_utf8-as_bytes : (s : String) → from_utf8 (as_bytes s) ≡ some s
unfolding as_bytes from_utf8
from_utf8-as_bytes String.[] = refl
from_utf8-as_bytes (String.◌∷◌ c s) = from_utf8-char c (as_bytes s) s (from_utf8-as_bytes s)
