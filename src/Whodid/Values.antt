-- ===== src/Whodid/Values.antt =====
-- The values of the fields of a line, as src/bin/whodidd.rs writes them.
use whenfs.Prelude.{
  ℕ, zero, suc, ◌-◌, ◌/◌, ◌^◌, ◌≡◌, ◌≢◌, refl, inl, inr, Bool, true, false, ◌&&◌, not, [], ◌∷◌,
  ◌++◌, arith, eqb, leb, ltb, All, all, all-All, All-map, Bool-cases,
}
use whenfs.Prelude.Text.{Text, text_eq, text_eq_iff}
use whenfs.Daemon.Strings.{json_escape, decimal, digits_back, signed}
use whenfs.Daemon.Lines.{reverse-All}
use whenfs.Whodid.Reader.{value, until_delimiter}
use whenfs.Whodid.Scan.{IsKey, IsLogged, quoted-json_escape}

-- No character that is escaped: none below U+0020, no quotation mark and no backslash.
abbrev pub IsPlain : Text → Type 0
IsPlain = All (λ c. (leb 32 c && not (eqb c b'"') && not (eqb c b'\\')) ≡ true)

pub json_escape_plain : (s : Text) → IsPlain s → json_escape s ≡ s
unfolding json_escape
json_escape_plain [] h = refl
json_escape_plain (c ∷ s) h = ground (arith, h.0, json_escape_plain s h.1)

pub IsPlain-IsLogged : (s : Text) → IsPlain s → IsLogged s
IsPlain-IsLogged s = All-map _ _ s (λ c h. ground (arith, h))

-- The characters of a number.
abbrev pub IsNumber : Text → Type 0
IsNumber = All (λ c. (leb b'-' c && leb c b'9') ≡ true)

digits_back-IsNumber : (fuel n : ℕ) → IsNumber (digits_back fuel n)
digits_back-IsNumber zero n = tt
digits_back-IsNumber (suc fuel) n = elim (Bool-cases (ltb n 10)) [
  | inl a ↦ rw a (ground arith, tt)
  | inr a ↦ rw a (ground arith, digits_back-IsNumber fuel (n / 10))
]

decimal-IsNumber : (n : ℕ) → IsNumber (decimal n)
unfolding decimal
decimal-IsNumber n = reverse-All _ (digits_back 10 n) (digits_back-IsNumber 10 n)

pub signed-IsNumber : (n : ℕ) → IsNumber (signed n)
unfolding signed
signed-IsNumber n = elim (Bool-cases (ltb n (2 ^ 31))) [
  | inl a ↦ rw (signed, a) (decimal-IsNumber n)
  | inr a ↦ rw (signed, a) (refl, decimal-IsNumber (2 ^ 32 - n))
]

until_delimiter_number : (v rest : Text) → IsNumber v → until_delimiter (v ++ b',' ∷ rest) ≡ v
unfolding until_delimiter
until_delimiter_number [] rest h = refl
until_delimiter_number (c ∷ v) rest h = ground (arith, h.0, until_delimiter_number v rest h.1)

pub value_number : (v rest : Text) → IsNumber v → value (v ++ b',' ∷ rest) ≡ v
unfolding value
value_number [] rest h = until_delimiter_number [] rest tt
value_number (c ∷ v) rest h =
    let digit : eqb c b'"' ≡ false = ground (arith, h.0) in
    rw digit (until_delimiter_number (c ∷ v) rest h)

pub value_text : (v rest : Text) → IsLogged v → value (b'"' ∷ json_escape v ++ b'"' ∷ rest) ≡ v
unfolding value
value_text v rest h = quoted-json_escape v rest h

-- The tests that the names of the fields pass by computation.
abbrev pub is_key : Text → Bool
is_key = all (λ c. leb b'a' c && leb c b'z')

pub key : (s : Text) → is_key s ≡ true → IsKey s
key = all-All _

pub unlike : (s t : Text) → text_eq s t ≡ false → s ≢ t
unlike s t h e = cc (h, (text_eq_iff s t).1 e)
