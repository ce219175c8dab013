-- ===== src/Addressing/Utf8.antt =====
-- `quote` of src/vera_mmu/addressing.py writes what `unquote` reads back.
use vera_mmu.Common.{
  ℕ, zero, suc, ◌+◌, ◌-◌, ◌*◌, ◌/◌, ◌%◌, ◌<◌, ◌≤◌, ◌≡◌, refl, ap, ◌∙◌, String, true, false, ◌&&◌,
  ◌||◌, leb, ltb, nat_eq, some, List, [], ◌∷◌, ◌++◌, map, All, if◌then◌else◌, Bool-cases, inl, inr,
  arith,
}
use Prim.Native.Char.{code}
use vera_mmu.Common.Text.{codes}
use vera_mmu.Addressing.{digit_at, hex_digit, text_append, escape}
use vera_mmu.Addressing.Unquote.{
  Unit8, byte, hex_value, pair_value, units, Pending, ready, more, first_of, put, decode,
}

hex_code : ℕ → ℕ
hex_code n = if ltb n 10 then 48 + n else 55 + n

hex_digit-codes :
    (n : ℕ) (r : String) → n < 16 → codes (text_append (hex_digit n) r) ≡ hex_code n ∷ codes r
unfolding hex_digit digit_at text_append hex_code
hex_digit-codes zero r h = refl
hex_digit-codes (suc zero) r h = refl
hex_digit-codes (suc (suc zero)) r h = refl
hex_digit-codes (suc (suc (suc zero))) r h = refl
hex_digit-codes (suc (suc (suc (suc zero)))) r h = refl
hex_digit-codes (suc (suc (suc (suc (suc zero))))) r h = refl
hex_digit-codes (suc (suc (suc (suc (suc (suc zero)))))) r h = refl
hex_digit-codes (suc (suc (suc (suc (suc (suc (suc zero))))))) r h = refl
hex_digit-codes (suc (suc (suc (suc (suc (suc (suc (suc zero)))))))) r h = refl
hex_digit-codes (suc (suc (suc (suc (suc (suc (suc (suc (suc zero))))))))) r h = refl
hex_digit-codes (suc (suc (suc (suc (suc (suc (suc (suc (suc (suc zero)))))))))) r h = refl
hex_digit-codes (suc (suc (suc (suc (suc (suc (suc (suc (suc (suc (suc zero))))))))))) r h = refl
hex_digit-codes (suc (suc (suc (suc (suc (suc (suc (suc (suc (suc (suc (suc zero)))))))))))) r h =
    refl
hex_digit-codes (suc (suc (suc (suc (suc (suc (suc (suc (suc (suc (suc (suc (suc zero))))))))))))) r
      h =
    refl
hex_digit-codes
      (suc (suc (suc (suc (suc (suc (suc (suc (suc (suc (suc (suc (suc (suc zero)))))))))))))) r h =
    refl
hex_digit-codes
      (suc (suc (suc (suc (suc (suc (suc (suc (suc (suc (suc (suc (suc (suc (suc zero)))))))))))))))
      r h =
    refl
hex_digit-codes
      (suc
        (suc (suc (suc (suc (suc (suc (suc (suc (suc (suc (suc (suc (suc (suc (suc n))))))))))))))))
      r h =
    absurd (omega arith)

hex_value-hex_code : (n : ℕ) → n < 16 → hex_value (hex_code n) ≡ some n
unfolding hex_value hex_code
hex_value-hex_code n h = ground arith

pub codes-text_append : (s t : String) → codes (text_append s t) ≡ codes s ++ codes t
unfolding text_append
codes-text_append String.[] t = refl
codes-text_append (String.◌∷◌ c s) t = ap (λ cs. code c ∷ cs) (codes-text_append s t)

escape-codes :
    (b : ℕ) (bs : List ℕ)
    → b < 256
    → codes (escape (b ∷ bs)) ≡ 37 ∷ hex_code (b / 16) ∷ hex_code (b % 16) ∷ codes (escape bs)
unfolding escape text_append
escape-codes b bs h =
    ap (λ cs. 37 ∷ cs)
      (hex_digit-codes (b / 16) _ (omega arith)
        ∙ ap (λ cs. hex_code (b / 16) ∷ cs) (hex_digit-codes (b % 16) (escape bs) (omega arith)))

pair-value :
    (b : ℕ)
    → b < 256
    → pair_value (hex_value (hex_code (b / 16))) (hex_value (hex_code (b % 16))) ≡ some b
pair-value b h =
    rw (hex_value-hex_code (b / 16) (omega arith))
      (rw (hex_value-hex_code (b % 16) (omega arith)) (ap some (omega arith)))

units-pair :
    (a b v : ℕ) (cs : List ℕ)
    → pair_value (hex_value a) (hex_value b) ≡ some v
    → units 0 (37 ∷ a ∷ b ∷ cs) ≡ byte v ∷ units 0 cs
unfolding units
units-pair a b v cs h = rw h refl

-- escapes are read as their bytes
pub units-escape :
    (bs cs : List ℕ)
    → All (λ b. b < 256) bs
    → units 0 (codes (escape bs) ++ cs) ≡ map byte bs ++ units 0 cs
units-escape [] cs h = unfold escape in refl
units-escape (b ∷ bs) cs h =
    ap (λ xs. units 0 (xs ++ cs)) (escape-codes b bs h.0)
    ∙ units-pair (hex_code (b / 16)) (hex_code (b % 16)) b (codes (escape bs) ++ cs)
        (pair-value b h.0)
    ∙ ap (λ us. byte b ∷ us) (units-escape bs cs h.1)

-- one byte of a character
first_byte :
    (b : ℕ) (p : Pending) (us : List Unit8)
    → 128 ≤ b
    → first_of b ≡ some p
    → decode ready (byte b ∷ us) ≡ decode p us
unfolding decode
first_byte b p us l h = rw (not_plain b l) (rw h refl)
  where
    not_plain : (n : ℕ) → 128 ≤ n → ltb n 128 ≡ false
    not_plain n l = ground arith

in_range : (l b h : ℕ) → l ≤ b → b ≤ h → (leb l b && leb b h) ≡ true
in_range l b h low high = ground arith

next_byte :
    (m v l h b : ℕ) (us : List Unit8)
    → l ≤ b
    → b ≤ h
    → decode (more (suc m) v l h) (byte b ∷ us) ≡ decode (more m (v * 64 + (b - 128)) 128 191) us
unfolding decode
next_byte m v l h b us low high = rw (in_range l b h low high) refl

last_byte :
    (v l h b c : ℕ) (us : List Unit8)
    → l ≤ b
    → b ≤ h
    → v * 64 + (b - 128) ≡ c
    → decode (more 0 v l h) (byte b ∷ us) ≡ put c (decode ready us)
unfolding decode
last_byte v l h b c us low high same =
    rw (in_range l b h low high) (ap (λ n. put n (decode ready us)) same)

-- the first bytes
first_of_two : (x : ℕ) → 2 ≤ x → x < 32 → first_of (192 + x) ≡ some (more 0 x 128 191)
unfolding first_of
first_of_two x low high = ground arith

first_of_three :
    (b x : ℕ)
    → b ≡ 224 + x
    → 1 ≤ x
    → x < 16
    → nat_eq x 13 ≡ false
    → first_of b ≡ some (more 1 x 128 191)
unfolding first_of
first_of_three b x same low high other = ground arith

first_of_least : (b : ℕ) → b ≡ 224 → first_of b ≡ some (more 1 0 160 191)
unfolding first_of
first_of_least b same = ground arith

first_of_surrogate : (b : ℕ) → b ≡ 237 → first_of b ≡ some (more 1 13 128 159)
unfolding first_of
first_of_surrogate b same = ground arith

first_of_four : (b x : ℕ) → b ≡ 240 + x → 1 ≤ x → x < 4 → first_of b ≡ some (more 2 x 128 191)
unfolding first_of
first_of_four b x same low high = ground arith

first_of_first : (b : ℕ) → b ≡ 240 → first_of b ≡ some (more 2 0 144 191)
unfolding first_of
first_of_first b same = ground arith

first_of_last : (b : ℕ) → b ≡ 244 → first_of b ≡ some (more 2 4 128 143)
unfolding first_of
first_of_last b same = ground arith

pub two_bytes :
    (c : ℕ) (us : List Unit8)
    → 128 ≤ c
    → c < 2048
    → decode ready (byte (192 + c / 64) ∷ byte (128 + c % 64) ∷ us) ≡ put c (decode ready us)
two_bytes c us l h =
    first_byte (192 + c / 64) (more 0 (c / 64) 128 191) _ (omega arith)
      (first_of_two (c / 64) (omega arith) (omega arith))
    ∙ last_byte (c / 64) 128 191 (128 + c % 64) c us (omega arith) (omega arith) (omega arith)

-- the bytes after the first of three
rest_of_three :
    (c v l h : ℕ) (us : List Unit8)
    → l ≤ 128 + c / 64 % 64
    → 128 + c / 64 % 64 ≤ h
    → v ≡ c / 4096
    → decode (more 1 v l h) (byte (128 + c / 64 % 64) ∷ byte (128 + c % 64) ∷ us)
      ≡ put c (decode ready us)
rest_of_three c v l h us low high same =
    next_byte 0 v l h (128 + c / 64 % 64) _ low high
    ∙ last_byte (v * 64 + (128 + c / 64 % 64 - 128)) 128 191 (128 + c % 64) c us (omega arith)
        (omega arith) (omega arith)

pub three_bytes :
    (c : ℕ) (us : List Unit8)
    → 2048 ≤ c
    → c < 65536
    → (ltb c 55296 || ltb 57343 c && ltb c 1114112) ≡ true
    → decode ready (byte (224 + c / 4096) ∷ byte (128 + c / 64 % 64) ∷ byte (128 + c % 64) ∷ us)
      ≡ put c (decode ready us)
three_bytes c us l h scalar = elim (Bool-cases (nat_eq (c / 4096) 0)) [
  | inl least ↦
      first_byte _ _ _ (omega arith) (first_of_least _ (ground arith))
      ∙ rest_of_three c 0 160 191 us (ground arith) (omega arith) (ground arith)
  | inr some_more ↦ elim (Bool-cases (nat_eq (c / 4096) 13)) [
    | inl surrogate ↦
        first_byte _ _ _ (omega arith) (first_of_surrogate _ (ground arith))
        ∙ rest_of_three c 13 128 159 us (omega arith) (ground arith) (ground arith)
    | inr other ↦
        first_byte _ _ _ (omega arith)
          (first_of_three _ (c / 4096) refl (ground arith) (omega arith) other)
        ∙ rest_of_three c (c / 4096) 128 191 us (omega arith) (omega arith) refl
  ]
]

rest_of_four :
    (c v l h : ℕ) (us : List Unit8)
    → l ≤ 128 + c / 4096 % 64
    → 128 + c / 4096 % 64 ≤ h
    → v ≡ c / 262144
    → decode
        (more 2 v l h)
        (byte (128 + c / 4096 % 64) ∷ byte (128 + c / 64 % 64) ∷ byte (128 + c % 64) ∷ us)
      ≡ put c (decode ready us)
rest_of_four c v l h us low high same =
    next_byte 1 v l h (128 + c / 4096 % 64) _ low high
    ∙ rest_of_three c (v * 64 + (128 + c / 4096 % 64 - 128)) 128 191 us (omega arith) (omega arith)
        (omega arith)

pub four_bytes :
    (c : ℕ) (us : List Unit8)
    → 65536 ≤ c
    → (ltb c 55296 || ltb 57343 c && ltb c 1114112) ≡ true
    → decode ready (
        byte (240 + c / 262144)
        ∷ byte (128 + c / 4096 % 64)
        ∷ byte (128 + c / 64 % 64)
        ∷ byte (128 + c % 64)
        ∷ us)
      ≡ put c (decode ready us)
four_bytes c us l scalar = elim (Bool-cases (nat_eq (c / 262144) 0)) [
  | inl least ↦
      first_byte _ _ _ (omega arith) (first_of_first _ (ground arith))
      ∙ rest_of_four c 0 144 191 us (ground arith) (omega arith) (ground arith)
  | inr some_more ↦ elim (Bool-cases (nat_eq (c / 262144) 4)) [
    | inl top ↦
        first_byte _ _ _ (omega arith) (first_of_last _ (ground arith))
        ∙ rest_of_four c 4 128 143 us (omega arith) (ground arith) (ground arith)
    | inr other ↦
        first_byte _ _ _ (omega arith)
          (first_of_four _ (c / 262144) refl (ground arith) (ground arith))
        ∙ rest_of_four c (c / 262144) 128 191 us (omega arith) (omega arith) refl
  ]
]
