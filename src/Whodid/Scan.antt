-- ===== src/Whodid/Scan.antt =====
-- How `field` of src/bin/whodid.rs finds a key in a line that src/bin/whodidd.rs wrote.
use whenfs.Prelude.{
  ℕ, ◌/◌, ◌%◌, ◌≡◌, ◌≢◌, refl, sym, ap, ◌∙◌, ◌⊎◌, inl, inr, true, false, ◌&&◌, ◌||◌, none, some, [],
  ◌∷◌, ◌++◌, arith, eqb, eqb_iff, leb, ltb, All, Bool-cases,
}
use mathlib.Core.List.{append_assoc}
use whenfs.Prelude.Text.{Text, strip_prefix, strip_prefix-append}
use whenfs.Daemon.Strings.{json_escape, escape_char, hex_digit}
use whenfs.Whodid.Reader.{after_first, needle_of, quoted}

-- Small letters.
abbrev pub IsKey : Text → Type 0
IsKey = All (λ c. (leb b'a' c && leb c b'z') ≡ true)

-- No quotation mark.
abbrev pub IsUnquoted : Text → Type 0
IsUnquoted = All (λ c. eqb c b'"' ≡ false)

-- A field with a text, and one with a number, each with the comma behind it.
abbrev pub text_field : Text → Text → Text → Text
text_field k v rest = b'"' ∷ (k ++ b'"' ∷ b':' ∷ b'"' ∷ (json_escape v ++ b'"' ∷ b',' ∷ rest))

abbrev pub number_field : Text → Text → Text → Text
number_field k v rest = b'"' ∷ (k ++ b'"' ∷ b':' ∷ (v ++ b',' ∷ rest))

-- An escape is the character itself, or begins with a backslash and has a quotation mark at most as
-- its second and last character.
escape_char-cases :
    (c : ℕ)
    → ((escape_char c ≡ c ∷ []) × (eqb c b'"' ≡ false) × (eqb c b'\\' ≡ false))
      ⊎ ((tl : Text) × (escape_char c ≡ b'\\' ∷ tl) × (IsUnquoted tl ⊎ (tl ≡ b'"' ∷ [])))
escape_char-cases c = elim (Bool-cases (eqb c b'"')) [
  | inl a ↦ inr (b'"' ∷ [], rw a refl, inr refl)
  | inr a ↦ elim (Bool-cases (eqb c b'\\')) [
    | inl b ↦ inr (b'\\' ∷ [], rw (a, b) refl, inl (refl, tt))
    | inr b ↦ elim (Bool-cases (eqb c 10)) [
      | inl d ↦ inr (b'n' ∷ [], rw (a, b, d) refl, inl (refl, tt))
      | inr d ↦ elim (Bool-cases (eqb c 9)) [
        | inl e ↦ inr (b't' ∷ [], rw (a, b, d, e) refl, inl (refl, tt))
        | inr e ↦ elim (Bool-cases (ltb c 32)) [
          | inl f ↦ inr (
            b'u' ∷ b'0' ∷ b'0' ∷ hex_digit (c / 16) ∷ hex_digit (c % 16) ∷ [],
            rw (a, b, d, e, f) refl,
            inl (refl, (refl, (refl, (hex_lem (c / 16), (hex_lem (c % 16), tt))))),
          )
          | inr f ↦ inl (rw (a, b, d, e, f) refl, a, b)
        ]
      ]
    ]
  ]
]
  where
    hex_lem : (n : ℕ) → eqb (hex_digit n) b'"' ≡ false
    hex_lem n = ground arith

module _ (rest : Text) where
  -- The text of a field does not end a needle: a quotation mark in it stands behind a backslash, and
  -- the one behind it is followed by a comma.
  no_key_within :
      (key v : Text)
      → IsKey key
      → strip_prefix (json_escape v ++ b'"' ∷ b',' ∷ rest) (key ++ b'"' ∷ b':' ∷ []) ≡ none
  unfolding strip_prefix json_escape
  no_key_within [] [] h = refl
  no_key_within (k ∷ key) [] h = ground (arith, h.0)
  no_key_within [] (c ∷ v) h = elim (escape_char-cases c) [
    | inl (e, q, b) ↦ rw (e, json_escape) (ground (arith, q))
    | inr (tl, e, _) ↦ rw (e, json_escape) refl
  ]
  no_key_within (k ∷ key) (c ∷ v) h = elim (escape_char-cases c) [
    | inl (e, q, b) ↦ rw (e, json_escape) (ground (arith, no_key_within key v h.1))
    | inr (tl, e, _) ↦ rw (e, json_escape) (ground (arith, h.0))
  ]

module _ (key : Text) where
  pub after_first_skip :
      (c : ℕ) (s : Text)
      → eqb c b'"' ≡ false
      → after_first (needle_of key) (c ∷ s) ≡ after_first (needle_of key) s
  unfolding after_first strip_prefix
  after_first_skip c s h = rw (after_first, strip_prefix, h) refl

  after_first_unquoted :
      (v s : Text)
      → IsUnquoted v
      → after_first (needle_of key) (v ++ s) ≡ after_first (needle_of key) s
  after_first_unquoted [] s h = refl
  after_first_unquoted (c ∷ v) s h = after_first_skip c (v ++ s) h.0 ∙ after_first_unquoted v s h.1

  after_first_quote :
      (s : Text)
      → strip_prefix s (key ++ b'"' ∷ b':' ∷ []) ≡ none
      → after_first (needle_of key) (b'"' ∷ s) ≡ after_first (needle_of key) s
  unfolding after_first strip_prefix
  after_first_quote s h = rw (after_first, strip_prefix, h) refl

  module _ (letters : IsKey key) where
    -- A needle does not begin with a comma or a colon behind the quotation mark.
    no_mark :
        (c : ℕ) (s : Text)
        → ltb c b'a' ≡ true
        → eqb c b'"' ≡ false
        → strip_prefix (c ∷ s) (key ++ b'"' ∷ b':' ∷ []) ≡ none
    unfolding strip_prefix
    no_mark c s low other = elim (key_cases key letters) [
      | inl e ↦ rw e (ground arith)
      | inr (k, ks, e, letter) ↦ rw e (ground arith)
    ]
      where
        key_cases :
            (w : Text)
            → IsKey w
            → (w ≡ [])
              ⊎ ((k : ℕ) × (ks : Text) × (w ≡ k ∷ ks) × ((leb b'a' k && leb k b'z') ≡ true))
        key_cases [] h = inl refl
        key_cases (k ∷ ks) h = inr (k, ks, refl, h.0)

    after_first_mark :
        (c : ℕ) (s : Text)
        → ltb c b'a' ≡ true
        → eqb c b'"' ≡ false
        → after_first (needle_of key) (b'"' ∷ c ∷ s) ≡ after_first (needle_of key) s
    after_first_mark c s low other =
        after_first_quote (c ∷ s) (no_mark c s low other) ∙ after_first_skip c s other

    after_first_content :
        (v rest : Text)
        → after_first (needle_of key) (json_escape v ++ b'"' ∷ b',' ∷ rest)
          ≡ after_first (needle_of key) rest
    unfolding json_escape
    after_first_content [] rest = after_first_mark b',' rest refl refl
    after_first_content (c ∷ v) rest =
        let tail = json_escape v ++ b'"' ∷ b',' ∷ rest in
        let ih : after_first (needle_of key) tail ≡ after_first (needle_of key) rest =
          after_first_content v rest in
        elim (escape_char-cases c) [
          | inl (e, q, b) ↦ rw (json_escape, e) (after_first_skip c tail q ∙ ih)
          | inr (tl, e, inl plain) ↦
              rw (json_escape, e, append_assoc)
                (after_first_skip b'\\' (tl ++ tail) refl ∙ after_first_unquoted tl tail plain ∙ ih)
          | inr (tl, e, inr quote) ↦
              rw (json_escape, e, quote)
                (after_first_skip b'\\' (b'"' ∷ tail) refl
                  ∙ after_first_quote tail (no_key_within rest key v letters)
                  ∙ ih)
        ]

    key_apart :
        (k key' x y : Text)
        → IsKey k
        → IsKey key'
        → k ≢ key'
        → strip_prefix (k ++ b'"' ∷ x) (key' ++ b'"' ∷ y) ≡ none
    unfolding strip_prefix
    key_apart [] [] x y h l n = absurd (n refl)
    key_apart [] (d ∷ key') x y h l n = ground (arith, l.0)
    key_apart (c ∷ k) [] x y h l n = ground (arith, h.0)
    key_apart (c ∷ k) (d ∷ key') x y h l n = elim (Bool-cases (eqb c d)) [
      | inr other ↦ rw (strip_prefix, other) refl
      | inl same ↦
          rw (strip_prefix, same)
            (key_apart k key' x y h.1 l.1 (λ e. n (ap2 ((eqb_iff c d).0 same) e)))
    ]
      where
        ap2 : {a b : ℕ} {u v : Text} → a ≡ b → u ≡ v → a ∷ u ≡ b ∷ v
        ap2 p q = cc (p, q)

IsKey-IsUnquoted : (k : Text) → IsKey k → IsUnquoted k
IsKey-IsUnquoted [] h = tt
IsKey-IsUnquoted (c ∷ k) h = (ground (arith, h.0), IsKey-IsUnquoted k h.1)

module _ (key k : Text) (letters : IsKey key) (other : IsKey k) (apart : k ≢ key) where
  after_name :
      (s : Text)
      → after_first (needle_of key) (b'"' ∷ k ++ b'"' ∷ b':' ∷ s) ≡ after_first (needle_of key) s
  after_name s =
      after_first_quote key (k ++ b'"' ∷ b':' ∷ s)
        (key_apart key letters k key (b':' ∷ s) (b':' ∷ []) other letters apart)
      ∙ after_first_unquoted key k (b'"' ∷ b':' ∷ s) (IsKey-IsUnquoted k other)
      ∙ after_first_mark key letters b':' s refl refl

  -- A field of another name is passed over, whatever its text holds.
  pub after_first-text_field :
      (v rest : Text)
      → after_first (needle_of key) (text_field k v rest) ≡ after_first (needle_of key) rest
  after_first-text_field v rest =
      after_name (b'"' ∷ json_escape v ++ b'"' ∷ b',' ∷ rest)
      ∙ after_first_quote key (json_escape v ++ b'"' ∷ b',' ∷ rest)
          (no_key_within rest key v letters)
      ∙ after_first_content key letters v rest

  pub after_first-number_field :
      (v rest : Text)
      → IsUnquoted v
      → after_first (needle_of key) (number_field k v rest) ≡ after_first (needle_of key) rest
  after_first-number_field v rest plain =
      after_name (v ++ b',' ∷ rest)
      ∙ after_first_unquoted key v (b',' ∷ rest) plain
      ∙ after_first_skip key b',' rest refl

-- The field of the name is found.
pub after_first_found :
    (key s : Text) → after_first (needle_of key) (b'"' ∷ key ++ b'"' ∷ b':' ∷ s) ≡ some s
unfolding after_first
after_first_found key s =
    let found : strip_prefix (b'"' ∷ key ++ b'"' ∷ b':' ∷ s) (needle_of key) ≡ some s =
      rw append_assoc at (strip_prefix-append (needle_of key) s) in
    rw (after_first, found) refl

-- What the log gives back as it was: no character below U+0020 but the line feed and the tab.
abbrev pub IsLogged : Text → Type 0
IsLogged = All (λ c. (leb 32 c || eqb c 10 || eqb c 9) ≡ true)

quoted_plain :
    (c : ℕ) (s : Text) → eqb c b'"' ≡ false → eqb c b'\\' ≡ false → quoted (c ∷ s) ≡ c ∷ quoted s
unfolding quoted
quoted_plain c [] a b = rw (a, b) refl
quoted_plain c (d ∷ s) a b = rw (quoted, b, a) refl

quoted_escape :
    (c : ℕ) (s : Text)
    → (leb 32 c || eqb c 10 || eqb c 9) ≡ true
    → quoted (escape_char c ++ s) ≡ c ∷ quoted s
unfolding quoted
quoted_escape c s h = elim (Bool-cases (eqb c b'"')) [
  | inl a ↦ rw a (ap (λ x. x ∷ quoted s) (sym ((eqb_iff c b'"').0 a)))
  | inr a ↦ elim (Bool-cases (eqb c b'\\')) [
    | inl b ↦ rw (a, b) (ap (λ x. x ∷ quoted s) (sym ((eqb_iff c b'\\').0 b)))
    | inr b ↦ elim (Bool-cases (eqb c 10)) [
      | inl d ↦ rw (a, b, d) (ap (λ x. x ∷ quoted s) (sym ((eqb_iff c 10).0 d)))
      | inr d ↦ elim (Bool-cases (eqb c 9)) [
        | inl e ↦ rw (a, b, d, e) (ap (λ x. x ∷ quoted s) (sym ((eqb_iff c 9).0 e)))
        | inr e ↦
            let high : ltb c 32 ≡ false = ground arith in
            rw (a, b, d, e, high) (quoted_plain c s a b)
      ]
    ]
  ]
]

quoted_end : (rest : Text) → quoted (b'"' ∷ rest) ≡ []
unfolding quoted
quoted_end [] = refl
quoted_end (d ∷ rest) = refl

-- The reader takes back each escape of such a text.
pub quoted-json_escape : (v rest : Text) → IsLogged v → quoted (json_escape v ++ b'"' ∷ rest) ≡ v
unfolding json_escape
quoted-json_escape [] rest h = quoted_end rest
quoted-json_escape (c ∷ v) rest h =
    rw (json_escape, append_assoc)
      (quoted_escape c (json_escape v ++ b'"' ∷ rest) h.0
        ∙ ap (λ t. c ∷ t) (quoted-json_escape v rest h.1))
