-- ===== src/Tests/Texts.antt =====
-- A way to print pointers and to decode bytes, and texts that are plain by computation.
use atomicity_violation.Base.{
  ℕ, zero, suc, ◌<◌, ◌≡◌, ◌≢◌, refl, ap, true, false, Bool, Bool-cases, inl, inr, Option, none,
  some, [], ◌∷◌, Bytes, codes, All, ◌==◌, ltb, if◌then◌else◌, arith,
}
use atomicity_violation.Trace.Line.{Platform}
use atomicity_violation.Pipeline.Parts.{IsLineByte}
use atomicity_violation.Pipeline.Fields.{IsPlain, DecodesAscii}

abbrev pub stroke_text : ℕ → Bytes
stroke_text zero = codes "0x0"
stroke_text (suc n) = b'1' ∷ stroke_text n

-- The threads 2 and 3 have the same `pthread_self()`: thread 3 is made when thread 2 has been
-- joined.
abbrev pub strokes : Platform
strokes = record { print_pointer = stroke_text; pthread_self = λ i. if i == 3 then 2 else i }

-- The first byte of a text, and the others.
abbrev first : Bytes → ℕ
first [] = 0
first (c ∷ s) = c

abbrev others : Bytes → Bytes
others [] = []
others (c ∷ s) = s

pub stroke_text_injective : (a b : ℕ) → stroke_text a ≡ stroke_text b → a ≡ b
stroke_text_injective zero zero e = refl
stroke_text_injective zero (suc b) e = let q : ◌≡◌ {A = ℕ} 48 49 = ap first e in omega arith
stroke_text_injective (suc a) zero e = let q : ◌≡◌ {A = ℕ} 49 48 = ap first e in omega arith
stroke_text_injective (suc a) (suc b) e = ap suc (stroke_text_injective a b (ap others e))

abbrev is_plain_byte : ℕ → Bool
is_plain_byte c =
    if c == b','
    then false
    else if c == b'\n'
    then false
    else if c == b'\r'
    then false
    else ltb c 128

abbrev pub is_plain : Bytes → Bool
is_plain [] = true
is_plain (c ∷ s) = if is_plain_byte c then is_plain s else false

plain_byte : (c : ℕ) → is_plain_byte c ≡ true → (c ≢ b',') × IsLineByte c
plain_byte c e = (ground arith, (ground arith, (ground arith, ground arith)))

-- A text that is plain, by computation.
pub IsPlain_lem : (s : Bytes) → is_plain s ≡ true → IsPlain s
IsPlain_lem [] e = (tt, tt)
IsPlain_lem (c ∷ s) e = elim (Bool-cases (is_plain_byte c)) [
  | inl plain ↦
      let (lacks, line) = plain_byte c plain in
      let (more_lacks, more_line) = IsPlain_lem s (rw plain at e) in
      ((lacks, more_lacks), (line, more_line))
  | inr other ↦ cc (rw other at e)
]

pub stroke_text-IsPlain : (a : ℕ) → IsPlain (stroke_text a)
stroke_text-IsPlain zero = IsPlain_lem (codes "0x0") refl
stroke_text-IsPlain (suc n) =
    let (lacks, line) = stroke_text-IsPlain n in
    let (stroke_lacks, stroke_line) = plain_byte b'1' refl in
    ((stroke_lacks, lacks), (stroke_line, line))

-- The decoder of a locale that knows ASCII only.
abbrev is_ascii : Bytes → Bool
is_ascii [] = true
is_ascii (c ∷ s) = if ltb c 128 then is_ascii s else false

abbrev pub decode_ascii : Bytes → Option Bytes
decode_ascii s = if is_ascii s then some s else none

is_ascii_lem : (s : Bytes) → All (λ c. c < 128) s → is_ascii s ≡ true
is_ascii_lem [] h = refl
is_ascii_lem (c ∷ s) (h, hs) =
    let small : ltb c 128 ≡ true = ground arith in rw small (is_ascii_lem s hs)

pub decode_ascii-DecodesAscii : DecodesAscii decode_ascii
decode_ascii-DecodesAscii s h = rw (is_ascii_lem s h) refl
