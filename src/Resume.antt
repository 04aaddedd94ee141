-- ===== src/Resume.antt =====
-- slopd/src/main.rs: `extract_resume_target` and `strip_resume_flags`, which turn the resume flags
-- of any spelling into the one that the agent takes.
use text.Mathlib.TextEquality.{eq_iff}
use slopd.Base.{
  String, Bool, true, false, ◌||◌, Option, none, some, List, [], ◌∷◌, or_else, All, Bool-cases, inl,
  inr, strip_prefix, starts_with, ◌==◌, ◌≡◌, refl, arith, ap, string_eq, ◌⊎◌, if◌then◌else◌,
}

unfoldable pub is_resume_flag : String → Bool
is_resume_flag a = a == "--resume" || a == "-s" || a == "--session"

-- The value of a `--flag=<id>` spelling.
unfoldable pub inline_target : String → Option String
inline_target a =
    or_else (strip_prefix "--resume=" a)
      (or_else (strip_prefix "--session=" a) (strip_prefix "-s=" a))

-- The loop over the arguments; `value` tells that the one before was a flag that takes this one.
unfoldable pub extract_from : (value : Bool) → List String → Option String
unfolding is_resume_flag inline_target
extract_from value [] = none
extract_from true (v ∷ args) =
    let rest = extract_from false args in if starts_with v "-" then rest else some v
extract_from false (a ∷ args) =
    let after_flag = extract_from true args in
    let rest = extract_from false args in
    if is_resume_flag a then after_flag else or_else (inline_target a) rest

unfoldable pub extract_resume_target : List String → Option String
unfolding extract_from
extract_resume_target args = extract_from false args

unfoldable pub is_inline : String → Bool
is_inline a = starts_with a "--resume=" || starts_with a "--session=" || starts_with a "-s="

unfoldable pub strip_from : (value : Bool) → List String → List String
unfolding is_resume_flag is_inline
strip_from value [] = []
strip_from true (v ∷ args) = strip_from false args
strip_from false (a ∷ args) =
    let after_flag = strip_from true args in
    let rest = strip_from false args in
    if is_resume_flag a then after_flag else if is_inline a then rest else a ∷ rest

unfoldable pub strip_resume_flags : List String → List String
unfolding strip_from
strip_resume_flags args = strip_from false args

-- No resume flag, in no spelling.
abbrev pub IsPlain : String → Type 0
IsPlain a = (is_resume_flag a ≡ false) × (inline_target a ≡ none)

inline_target-none : (a : String) → is_inline a ≡ false → inline_target a ≡ none
unfolding is_inline inline_target starts_with
inline_target-none a h = ground arith

extract_from-plain : (args : List String) → All IsPlain args → extract_from false args ≡ none
unfolding extract_from
extract_from-plain [] h = refl
extract_from-plain (a ∷ args) h = rw (h.0.0, h.0.1) (extract_from-plain args h.1)

strip_from-IsPlain : (value : Bool) (args : List String) → All IsPlain (strip_from value args)
unfolding strip_from
strip_from-IsPlain true [] = tt
strip_from-IsPlain false [] = tt
strip_from-IsPlain true (v ∷ args) = strip_from-IsPlain false args
strip_from-IsPlain false (a ∷ args) = elim (Bool-cases (is_resume_flag a)) [
  | inl e ↦ rw e (strip_from-IsPlain true args)
  | inr e ↦ elim (Bool-cases (is_inline a)) [
    | inl f ↦ rw (e, f) (strip_from-IsPlain false args)
    | inr f ↦ rw (e, f) ((e, inline_target-none a f), strip_from-IsPlain false args)
  ]
]

-- An argument that is a resume flag, and one that carries its value with it.
abbrev pub IsFlag : String → Type 0
IsFlag a = (a ≡ "--resume") ⊎ (a ≡ "-s") ⊎ (a ≡ "--session")

abbrev pub IsInline : String → Type 0
IsInline a =
    (starts_with a "--resume=" ≡ true)
    ⊎ (starts_with a "--session=" ≡ true)
    ⊎ (starts_with a "-s=" ≡ true)

-- How arguments are read, and which of them are no part of a resume flag: `Reading args kept`.
pub data Reading : List String → List String → Type 0 where
  no_arguments : Reading [] []
  dangling_flag : (a : String) → IsFlag a → Reading (a ∷ []) []
  flag_and_value :
      (a v : String) (args kept : List String)
      → IsFlag a
      → Reading args kept
      → Reading (a ∷ v ∷ args) kept
  inline_flag :
      (a : String) (args kept : List String)
      → IsInline a
      → Reading args kept
      → Reading (a ∷ args) kept
  other_argument :
      (a : String) (args kept : List String)
      → ¬ IsFlag a
      → ¬ IsInline a
      → Reading args kept
      → Reading (a ∷ args) (a ∷ kept)

is_resume_flag-IsFlag : (a : String) → is_resume_flag a ≡ true → IsFlag a
unfolding is_resume_flag
is_resume_flag-IsFlag a h = elim (Bool-cases (a == "--resume")) [
  | inl e ↦ inl ((eq_iff a _).0 e)
  | inr e ↦ elim (Bool-cases (a == "-s")) [
    | inl f ↦ inr (inl ((eq_iff a _).0 f))
    | inr f ↦ inr (inr ((eq_iff a "--session").0 (ground (arith, h, e, f))))
  ]
]

not-IsFlag_of : (a : String) → is_resume_flag a ≡ false → ¬ IsFlag a
unfolding is_resume_flag
not-IsFlag_of a h (inl e) = absurd (ground (arith, h, ap is_resume_flag e))
not-IsFlag_of a h (inr (inl e)) = absurd (ground (arith, h, ap is_resume_flag e))
not-IsFlag_of a h (inr (inr e)) = absurd (ground (arith, h, ap is_resume_flag e))

is_inline-IsInline : (a : String) → is_inline a ≡ true → IsInline a
unfolding is_inline
is_inline-IsInline a h = elim (Bool-cases (starts_with a "--resume=")) [
  | inl e ↦ inl e
  | inr e ↦ elim (Bool-cases (starts_with a "--session=")) [
    | inl f ↦ inr (inl f)
    | inr f ↦ inr (inr (ground (arith, h, e, f)))
  ]
]

not-IsInline_of : (a : String) → is_inline a ≡ false → ¬ IsInline a
unfolding is_inline
not-IsInline_of a h (inl e) = absurd (ground (arith, h, e))
not-IsInline_of a h (inr (inl e)) = absurd (ground (arith, h, e))
not-IsInline_of a h (inr (inr e)) = absurd (ground (arith, h, e))

-- The arguments after a flag, and those elsewhere, as `strip_from` takes them.
abbrev ReadingFrom : Bool → List String → Type 0
ReadingFrom true args = (a : String) → IsFlag a → Reading (a ∷ args) (strip_from true args)
ReadingFrom false args = Reading args (strip_from false args)

strip_from-Reading : (value : Bool) (args : List String) → ReadingFrom value args
unfolding strip_from
strip_from-Reading false [] = no_arguments
strip_from-Reading true [] = dangling_flag
strip_from-Reading true (v ∷ args) =
    λ a h. flag_and_value a v args _ h (strip_from-Reading false args)
strip_from-Reading false (a ∷ args) = elim (Bool-cases (is_resume_flag a)) [
  | inl e ↦ rw e (strip_from-Reading true args a (is_resume_flag-IsFlag a e))
  | inr e ↦ elim (Bool-cases (is_inline a)) [
    | inl f ↦
        rw (e, f) (inline_flag a args _ (is_inline-IsInline a f) (strip_from-Reading false args))
    | inr f ↦
        rw (e, f)
          (other_argument a args _ (not-IsFlag_of a e) (not-IsInline_of a f)
            (strip_from-Reading false args))
  ]
]

-- Stripping removes each resume flag with the value that belongs to it, whatever its spelling, keeps
-- every other argument in its place, and leaves nothing that would be read as a resume target.
pub extract_resume_target-strip :
    (args : List String)
    → Reading args (strip_resume_flags args)
      × (extract_resume_target (strip_resume_flags args) ≡ none)
unfolding extract_resume_target strip_resume_flags
extract_resume_target-strip args = (
  strip_from-Reading false args,
  extract_from-plain (strip_from false args) (strip_from-IsPlain false args),
)
