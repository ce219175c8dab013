-- ===== src/Addressing/Quoted.antt =====
-- `unquote` reads back what `quote` writes (src/vera_mmu/addressing.py).
use vera_mmu.Common.{
  ℕ, ◌+◌, ◌/◌, ◌<◌, ◌≡◌, refl, ap, ◌∙◌, String, true, false, ◌&&◌, ◌||◌, ltb, nat_eq, some, List,
  ◌∷◌, ◌++◌, map, All, Bool-cases, inl, inr, arith,
}
use Prim.Native.Char.{code}
use vera_mmu.Common.Text.{codes}
use vera_mmu.Addressing.{is_safe, is_lower_or_digit, utf8, escape, quote}
use vera_mmu.Addressing.Unquote.{
  Unit8, byte, units, ready, put, decode, unquote, then_text, scalar_test, text_of-codes,
}
use vera_mmu.Addressing.Utf8.{codes-text_append, units-escape, two_bytes, three_bytes, four_bytes}

plain_byte :
    (b : ℕ) (us : List Unit8)
    → ltb b 128 ≡ true
    → decode ready (byte b ∷ us) ≡ put b (decode ready us)
unfolding decode
plain_byte b us h = rw h refl

top_byte : (c : ℕ) → (ltb c 55296 || ltb 57343 c && ltb c 1114112) ≡ true → 240 + c / 262144 < 256
top_byte c h = ground arith

-- the bytes of a character are bytes, and they are read as the character
decode-utf8 :
    (c : ℕ) (us : List Unit8)
    → (ltb c 55296 || ltb 57343 c && ltb c 1114112) ≡ true
    → All (λ b. b < 256) (utf8 c)
      × (decode ready (map byte (utf8 c) ++ us) ≡ put c (decode ready us))
decode-utf8 c us scalar = elim (Bool-cases (ltb c 128)) [
  | inl one ↦ rw one ((ground arith, tt), plain_byte c us one)
  | inr more_1 ↦ rw more_1 (elim (Bool-cases (ltb c 2048)) [
    | inl two ↦
        rw two ((ground arith, (omega arith, tt)), two_bytes c us (ground arith) (ground arith))
    | inr more_2 ↦ rw more_2 (elim (Bool-cases (ltb c 65536)) [
      | inl three ↦ rw three (
        (ground arith, (omega arith, (omega arith, tt))),
        three_bytes c us (ground arith) (ground arith) scalar,
      )
      | inr four ↦ rw four (
        (top_byte c scalar, (omega arith, (omega arith, (omega arith, tt)))),
        four_bytes c us (ground arith) scalar,
      )
    ])
  ])
]

safe_code : (c : ℕ) → is_safe c ≡ true → (nat_eq c 37 ≡ false) × (ltb c 128 ≡ true)
unfolding is_safe is_lower_or_digit
safe_code c h = ground arith

safe_unit :
    (c : ℕ) (cs : List ℕ)
    → nat_eq c 37 ≡ false
    → ltb c 128 ≡ true
    → units 0 (c ∷ cs) ≡ byte c ∷ units 0 cs
unfolding units
safe_unit c cs apart small = rw apart (rw small refl)

decode-quote : (s : String) → decode ready (units 0 (codes (quote s))) ≡ some (codes s)
unfolding quote
decode-quote String.[] = unfold decode units in refl
decode-quote (String.◌∷◌ c s) = elim (Bool-cases (is_safe (code c))) [
  | inl safe ↦ rw safe (
      let (apart, small) = safe_code (code c) safe in
      ap (decode ready) (safe_unit (code c) (codes (quote s)) apart small)
      ∙ plain_byte (code c) (units 0 (codes (quote s))) small
      ∙ ap (put (code c)) (decode-quote s))
  | inr escaped ↦ rw escaped (
      let (bytes, read) = decode-utf8 (code c) (units 0 (codes (quote s))) (scalar_test c) in
      ap (λ xs. decode ready (units 0 xs)) (codes-text_append (escape (utf8 (code c))) (quote s))
      ∙ ap (decode ready) (units-escape (utf8 (code c)) (codes (quote s)) bytes)
      ∙ read
      ∙ ap (put (code c)) (decode-quote s))
]

-- An identifier that is quoted is unquoted to itself, whatever its characters.
pub unquote-quote : (s : String) → unquote (quote s) ≡ some s
unfolding unquote
unquote-quote s = ap then_text (decode-quote s) ∙ text_of-codes s
