-- ===== src/Acp/TagNames.antt =====
-- slopd-acp/src/adapter.rs: what is written into a tag is read back.
use Prim.Native.Char.{Char, code}
use Prim.Native.String.{◌++◌ as join}
use slopd.Base.{
  Bool, true, false, ◌&&◌, ltb, nat_eq, nat_eq_iff, and_true, Bool-cases, inl, inr, ℕ, zero, suc,
  ◌+◌, ◌*◌, ◌/◌, ◌%◌, ◌<◌, String, Option, none, some, List, [], ◌∷◌, ◌++◌, All, and_then,
  map_option, strip_prefix, strip_prefix-join, ◌≡◌, refl, ap, ◌∙◌, arith,
}
use slopd.Base.Utf8.{as_bytes, as_bytes-lt, from_utf8, from_utf8-as_bytes}
use slopd.Acp.Tags.{
  hex_char, hex_encode, hex_decode, to_digit, decode_pairs, find_stripped, decoded_tag,
}

abbrev is_digit : ℕ → Option ℕ → Bool
is_digit n none = false
is_digit n (some m) = nat_eq m n

is_digit-some : (n : ℕ) (o : Option ℕ) → is_digit n o ≡ true → o ≡ some n
is_digit-some n none h = absurd (ground (arith, h))
is_digit-some n (some m) h = ap some ((nat_eq_iff m n).0 h)

-- A hexadecimal digit is ASCII and read as its value.
abbrev is_read : ℕ → Bool
is_read n = ltb (code (hex_char n)) 128 && is_digit n (to_digit (code (hex_char n)))

abbrev all_below : ℕ → (ℕ → Bool) → Bool
all_below zero p = true
all_below (suc m) p = p m && all_below m p

all_below_sound : (m n : ℕ) (p : ℕ → Bool) → all_below m p ≡ true → n < m → p n ≡ true
all_below_sound zero n p h k = absurd (omega (arith, k))
all_below_sound (suc m) n p h k = elim (Bool-cases (nat_eq n m)) [
  | inl e ↦ ap p ((nat_eq_iff n m).0 e) ∙ (and_true (p m) (all_below m p) h).0
  | inr e ↦ all_below_sound m n p (and_true (p m) (all_below m p) h).1 (ground (arith, k, e))
]

every_digit : all_below 16 is_read ≡ true
unfolding to_digit
every_digit = refl

hex_char-code :
    (n : ℕ) → n < 16 → (code (hex_char n) < 128) × (to_digit (code (hex_char n)) ≡ some n)
hex_char-code n h =
    let read = all_below_sound 16 n is_read every_digit h in
    let both =
      and_true (ltb (code (hex_char n)) 128) (is_digit n (to_digit (code (hex_char n)))) read in
    (ground (arith, both.0), is_digit-some n (to_digit (code (hex_char n))) both.1)

as_bytes-cons :
    (c : Char) (s : String) → code c < 128 → as_bytes (String.◌∷◌ c s) ≡ code c ∷ as_bytes s
unfolding as_bytes
as_bytes-cons c s h = ground arith

abbrev paired : Option ℕ → Option ℕ → Option (List ℕ) → Option (List ℕ)
paired a b rest = and_then a (λ high. and_then b (λ low. map_option (◌∷◌ (high * 16 + low)) rest))

paired-some :
    (a b : Option ℕ) (rest : Option (List ℕ)) (n : ℕ) (bs : List ℕ)
    → a ≡ some (n / 16)
    → b ≡ some (n % 16)
    → rest ≡ some bs
    → paired a b rest ≡ some (n ∷ bs)
paired-some a b rest n bs e f g = rw (e, f, g) (ap (λ (m : ℕ). some (m ∷ bs)) (omega arith))

decode_pair :
    (b : ℕ) (s : String) (bs : List ℕ)
    → b < 256
    → decode_pairs (as_bytes s) ≡ some bs
    → decode_pairs (as_bytes (String.◌∷◌ (hex_char (b / 16)) (String.◌∷◌ (hex_char (b % 16)) s)))
      ≡ some (b ∷ bs)
unfolding decode_pairs
decode_pair b s bs h k =
    let high = hex_char-code (b / 16) (omega arith) in
    let low = hex_char-code (b % 16) (omega arith) in
    ap decode_pairs (
      as_bytes-cons _ (String.◌∷◌ (hex_char (b % 16)) s) high.0
      ∙ ap (◌∷◌ (code (hex_char (b / 16)))) (as_bytes-cons _ s low.0))
    ∙ paired-some _ _ _ b bs high.1 low.1 k

hex_decode-hex_encode : (bs : List ℕ) → All (λ b. b < 256) bs → hex_decode (hex_encode bs) ≡ some bs
unfolding hex_decode hex_encode
hex_decode-hex_encode [] h = refl
hex_decode-hex_encode (b ∷ bs) h =
    decode_pair b (hex_encode bs) bs h.0 (hex_decode-hex_encode bs h.1)

find_stripped-append :
    (prefix s : String) (xs ys : List String)
    → All (λ x. strip_prefix prefix x ≡ none) xs
    → find_stripped prefix (xs ++ join prefix s ∷ ys) ≡ some s
unfolding find_stripped
find_stripped-append prefix s [] ys h = rw (strip_prefix-join prefix s)
find_stripped-append prefix s (x ∷ xs) ys h = rw h.0 (find_stripped-append prefix s xs ys h.1)

-- The text that the adapter wrote in hexadecimal behind a prefix is read back from a pane's tags, also
-- when it is not ASCII, where no tag before it has the prefix. This serves the tags of the session and of
-- the directory alike.
pub decoded_tag-hex_encode :
    (prefix text : String) (xs ys : List String)
    → All (λ x. strip_prefix prefix x ≡ none) xs
    → decoded_tag (xs ++ join prefix (hex_encode (as_bytes text)) ∷ ys) prefix ≡ some text
unfolding decoded_tag
decoded_tag-hex_encode prefix text xs ys h =
    ap (λ o. and_then (and_then o hex_decode) from_utf8)
      (find_stripped-append prefix (hex_encode (as_bytes text)) xs ys h)
    ∙ ap (λ o. and_then o from_utf8) (hex_decode-hex_encode (as_bytes text) (as_bytes-lt text))
    ∙ from_utf8-as_bytes text
