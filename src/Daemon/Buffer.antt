-- ===== src/Daemon/Buffer.antt =====
-- What the watchers of src/bin/whodidd.rs have in common: reads in the buffer of 4096 bytes, where one
-- past its end is a fault, and the loop over the records of events in it. `Libc` is the layout of
-- the kernel's records, which the crate libc gives.
use whenfs.Prelude.{
  ℕ, zero, suc, ◌+◌, ◌≡◌, refl, ◌≢◌, ◌≤◌, lt→ltb, Bool, true, false, List, [], ◌∷◌, if◌then◌else◌,
  ltb, leb, length, arith, Bool-cases, inl, inr,
}

-- A result; a read outside the buffer; or a loop that is out of rounds.
pub data Access {ℓ} (A : Type ℓ) : Type ℓ where
  done : A → Access A
  fault : Access A
  unfinished : Access A

infixl 1 ◌>>=◌
abbrev pub ◌>>=◌ {ℓ κ} : {A : Type ℓ} {B : Type κ} → Access A → (A → Access B) → Access B
done a >>= f = f a
fault >>= f = fault
unfinished >>= f = unfinished

bind_ext {ℓ κ} :
    {A : Type ℓ} {B : Type κ} (r : Access A) (f g : A → Access B)
    → ((a : A) → f a ≡ g a)
    → (r >>= f) ≡ (r >>= g)
bind_ext (done a) f g h = h a
bind_ext fault f g h = refl
bind_ext unfinished f g h = refl

pub bind-Ends {ℓ κ} :
    {A : Type ℓ} {B : Type κ} (r : Access A) (f : A → Access B)
    → r ≢ unfinished
    → ((a : A) → f a ≢ unfinished)
    → (r >>= f) ≢ unfinished
bind-Ends (done a) f h k = k a
bind-Ends fault f h k = λ e. ground (arith, e)
bind-Ends unfinished f h k = λ e. h refl

pub ge→ltb : (a b : ℕ) → b ≤ a → ltb a b ≡ false
ge→ltb a b h = ground arith

module _ {ℓ} {A : Type ℓ} where
  abbrev pub take : ℕ → List A → List A
  take zero xs = []
  take (suc n) [] = []
  take (suc n) (x ∷ xs) = x ∷ take n xs

  abbrev pub drop : ℕ → List A → List A
  drop zero xs = xs
  drop (suc n) [] = []
  drop (suc n) (x ∷ xs) = drop n xs

-- `len` bytes from `offset` on.
unfoldable pub read_at : ℕ → ℕ → List ℕ → Access (List ℕ)
read_at offset len buf =
    if leb (offset + len) (length buf) then done (take len (drop offset buf)) else fault

pub read_at-Ends : (offset len : ℕ) (buf : List ℕ) → read_at offset len buf ≢ unfinished
unfolding read_at
read_at-Ends offset len buf = λ e. ground (arith, e)

-- `fanotify_event_metadata`, with the bit patterns of its signed numbers.
pub record Metadata : Type 0 where
  pub event_len : ℕ
  pub metadata_len : ℕ
  pub mask : ℕ
  pub fd : ℕ
  pub pid : ℕ

-- `fanotify_event_info_header`
pub record Header : Type 0 where
  pub info_type : ℕ
  pub len : ℕ

pub record Libc : Type 0 where
  pub metadata_size : ℕ
  pub metadata : List ℕ → Metadata
  pub header_size : ℕ
  pub header : List ℕ → Header
  pub fsid_size : ℕ
  -- `u32` and `i32` from four bytes, and `to_ne_bytes`.
  pub word : List ℕ → ℕ
  pub bytes : ℕ → List ℕ

abbrev pub is_negative : ℕ → Bool
is_negative fd = leb 2147483648 fd

module _ (lib : Libc) (buf : List ℕ) (n : ℕ) where
  -- From the offset on the read holds records with these heads, each complete.
  abbrev pub AreEvents : ℕ → List (List ℕ) → Type 0
  AreEvents offset [] = offset ≡ n
  AreEvents offset (b ∷ bs) =
      (read_at offset lib.metadata_size buf ≡ done b)
      × lib.metadata_size ≤ (lib.metadata b).event_len
      × offset + (lib.metadata b).event_len ≤ n
      × AreEvents (offset + (lib.metadata b).event_len) bs

module _ {ℓ} {S : Type ℓ} (lib : Libc) (serve : ℕ → Metadata → S → Access S) (buf : List ℕ)
    (n : ℕ) where
  -- `while offset < n`, in at most so many rounds; `serve` is the body between the check of the length
  -- and the step to the next record.
  unfoldable pub event_loop : ℕ → ℕ → S → Access S
  unfolding read_at
  event_loop zero offset s = if ltb offset n then unfinished else done s
  event_loop (suc rounds) offset s = elim (ltb offset n) [
    | false ↦ done s
    | true ↦ read_at offset lib.metadata_size buf >>= λ b.
        elim (ltb (lib.metadata b).event_len lib.metadata_size) [
          | true ↦ done s
          | false ↦
              serve offset (lib.metadata b) s
              >>= event_loop rounds (offset + (lib.metadata b).event_len)
        ]
  ]

  -- The records, served one behind the other.
  unfoldable pub serve_all : ℕ → List (List ℕ) → S → Access S
  serve_all offset [] s = done s
  serve_all offset (b ∷ bs) s =
      serve offset (lib.metadata b) s >>= serve_all (offset + (lib.metadata b).event_len) bs

  pub event_loop-serve_all :
      (rounds offset : ℕ) (bs : List (List ℕ)) (s : S)
      → 1 ≤ lib.metadata_size
      → n ≤ offset + rounds
      → AreEvents lib buf n offset bs
      → event_loop rounds offset s ≡ serve_all offset bs s
  unfolding event_loop serve_all
  event_loop-serve_all zero offset [] s z e at = ground arith
  event_loop-serve_all (suc rounds) offset [] s z e at = ground arith
  event_loop-serve_all zero offset (b ∷ bs) s z e (got, full, within, rest) = ground arith
  event_loop-serve_all (suc rounds) offset (b ∷ bs) s z e (got, full, within, rest) =
      let m = lib.metadata b in
      rw
        (
          event_loop,
          lt→ltb offset n (omega arith),
          got,
          ◌>>=◌,
          ge→ltb m.event_len lib.metadata_size full,
        )
        (bind_ext (serve offset m s) _ _
          (λ s'. event_loop-serve_all rounds (offset + m.event_len) bs s' z (omega arith) rest))

  -- The loop ends, whatever the bytes are.
  pub event_loop-Ends :
      (rounds offset : ℕ) (s : S)
      → 1 ≤ lib.metadata_size
      → n ≤ offset + rounds
      → ((at : ℕ) (m : Metadata) (s : S) → serve at m s ≢ unfinished)
      → event_loop rounds offset s ≢ unfinished
  unfolding event_loop
  event_loop-Ends zero offset s z e ends = λ h. ground (arith, h)
  event_loop-Ends (suc rounds) offset s z e ends = elim (Bool-cases (ltb offset n)) [
    | inr out ↦ rw (event_loop, out) (λ h. ground (arith, h))
    | inl more ↦
        rw (event_loop, more)
          (bind-Ends (read_at offset lib.metadata_size buf) _
            (read_at-Ends offset lib.metadata_size buf)
            (λ b. elim (Bool-cases (ltb (lib.metadata b).event_len lib.metadata_size)) [
              | inl short ↦ rw short (λ h. ground (arith, h))
              | inr full ↦ rw full (
                  bind-Ends (serve offset (lib.metadata b) s) _ (ends offset (lib.metadata b) s)
                    (λ s'.
                      event_loop-Ends rounds (offset + (lib.metadata b).event_len) s' z
                        (ground arith) ends))
            ]))
  ]
