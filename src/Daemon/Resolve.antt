-- ===== src/Daemon/Resolve.antt =====
-- `resolve_dfid_name` of src/bin/whodidd.rs on a record that is laid out as the kernel does it.
use whenfs.Prelude.{
  ℕ, zero, suc, ◌+◌, ◌-◌, ◌≡◌, refl, sym, ◌∙◌, ap, subst, ◌≤◌, ◌<◌, false, List, [], ◌∷◌, ◌++◌, eqb,
  All, length, length-append, arith, lt→ltb, le→leb,
}
use whenfs.Daemon.Buffer.{done, ◌>>=◌, Libc, take, drop, read_at, ge→ltb}
use whenfs.Daemon.Legacy.{Kernel}
use whenfs.Daemon.Fid.{name_loop, resolve_handle, resolve_dfid_name, open_parent}
use mathlib.Core.List.{append_assoc}

take-append : (xs ys : List ℕ) → take (length xs) (xs ++ ys) ≡ xs
take-append [] ys = refl
take-append (x ∷ xs) ys = ap (λ zs. x ∷ zs) (take-append xs ys)

drop-append : (xs ys : List ℕ) → drop (length xs) (xs ++ ys) ≡ ys
drop-append [] ys = refl
drop-append (x ∷ xs) ys = drop-append xs ys

-- At the offset the buffer holds these bytes.
abbrev pub Holds : List ℕ → ℕ → List ℕ → Type 0
Holds buf offset xs =
    (pre : List ℕ) × (post : List ℕ) × (buf ≡ pre ++ (xs ++ post)) × (length pre ≡ offset)

Holds-left :
    (buf : List ℕ) (offset : ℕ) (xs ys : List ℕ) → Holds buf offset (xs ++ ys) → Holds buf offset xs
Holds-left buf offset xs ys (pre, post, e, l) =
    (pre, ys ++ post, e ∙ ap (λ zs. pre ++ zs) (append_assoc xs ys post), l)

Holds-right :
    (buf : List ℕ) (offset : ℕ) (xs ys : List ℕ)
    → Holds buf offset (xs ++ ys)
    → Holds buf (offset + length xs) ys
Holds-right buf offset xs ys (pre, post, e, l) = (
  pre ++ xs,
  post,
  e ∙ ap (λ zs. pre ++ zs) (append_assoc xs ys post) ∙ sym (append_assoc pre xs (ys ++ post)),
  omega (arith, length-append pre xs, l),
)

-- What stands at an offset is what is read there.
read_at-Holds :
    (buf : List ℕ) (offset : ℕ) (xs : List ℕ)
    → Holds buf offset xs
    → read_at offset (length xs) buf ≡ done xs
unfolding read_at
read_at-Holds buf offset xs (pre, post, e, l) =
    rw
      (
        read_at,
        e,
        sym l,
        length-append pre (xs ++ post),
        length-append xs post,
        drop-append pre (xs ++ post),
        take-append xs post,
        le→leb (length pre + length xs) (length pre + (length xs + length post)) (omega arith),
      )
      refl

-- The loop over a name that is ended by a zero.
name_loop-Holds :
    (buf : List ℕ) (base record_end rounds start : ℕ) (name : List ℕ)
    → Holds buf (base + start) (name ++ 0 ∷ [])
    → All (λ c. eqb c 0 ≡ false) name
    → start + length name < record_end
    → record_end ≤ start + rounds
    → name_loop buf base record_end rounds start ≡ done (start + length name)
unfolding name_loop
name_loop-Holds buf base record_end zero start name at clean before enough = ground arith
name_loop-Holds buf base record_end (suc rounds) start [] at clean before enough =
    rw
      (
        name_loop,
        lt→ltb start record_end (omega arith),
        read_at-Holds buf (base + start) (0 ∷ []) at,
      )
      (ap done (omega arith))
name_loop-Holds buf base record_end (suc rounds) start (c ∷ name) at (nz, clean) before enough =
    rw
      (
        name_loop,
        lt→ltb start record_end (omega arith),
        read_at-Holds buf (base + start) (c ∷ [])
            (Holds-left buf (base + start) (c ∷ []) (name ++ 0 ∷ []) at),
        ◌>>=◌,
        nz,
      )
      (name_loop-Holds buf base record_end rounds (suc start) name
          (subst (λ at. Holds buf at (name ++ 0 ∷ [])) (omega arith)
            (Holds-right buf (base + start) (c ∷ []) (name ++ 0 ∷ []) at))
          clean (omega arith) (omega arith)
        ∙ ap done (omega arith))

module _ (buf : List ℕ) where
  moved : {m n : ℕ} (xs : List ℕ) → m ≡ n → Holds buf m xs → Holds buf n xs
  moved xs e h = subst (λ at. Holds buf at xs) e h

  read_exactly :
      (offset n : ℕ) (xs ys : List ℕ)
      → length xs ≡ n
      → Holds buf offset (xs ++ ys)
      → read_at offset n buf ≡ done xs
  read_exactly offset n xs ys e h =
      subst (λ m. read_at offset m buf ≡ done xs) e
        (read_at-Holds buf offset xs (Holds-left buf offset xs ys h))

module _ (lib : Libc) (k : Kernel) (buf : List ℕ) (base info_offset record_end : ℕ)
    (hb ht handle name : List ℕ) where
  abbrev fh_hdr_start : ℕ
  fh_hdr_start = info_offset + lib.header_size + lib.fsid_size

  -- A record behind whose header stand the length and type of a handle, of four bytes each, the
  -- handle, and a name that a zero ends within the record, resolves to what opening that very handle
  -- gives, with that name.
  pub resolve_dfid_name_lem :
      Holds buf (base + fh_hdr_start) (hb ++ (ht ++ (handle ++ (name ++ 0 ∷ []))))
      → length hb ≡ 4
      → length ht ≡ 4
      → lib.word hb ≡ length handle
      → All (λ c. eqb c 0 ≡ false) name
      → fh_hdr_start + 8 + length handle + length name < record_end
      → resolve_dfid_name lib k buf base info_offset record_end
        ≡ done (
            open_parent k
              (base + info_offset)
              (lib.bytes (length handle) ++ lib.bytes (lib.word ht) ++ handle)
              ((k.system (base + info_offset)).lossy name))
  unfolding resolve_dfid_name resolve_handle
  resolve_dfid_name_lem at four four' size clean inside =
      let fh = base + fh_hdr_start in
      let start = fh_hdr_start + 8 in
      let at_type = Holds-right buf fh hb (ht ++ (handle ++ (name ++ 0 ∷ []))) at in
      let at_handle : Holds buf (base + start) (handle ++ (name ++ 0 ∷ [])) =
        moved buf _ (omega (arith, four, four'))
          (Holds-right buf (fh + length hb) ht (handle ++ (name ++ 0 ∷ [])) at_type) in
      let name_start = start + lib.word hb in
      let at_name : Holds buf (base + name_start) (name ++ 0 ∷ []) =
        moved buf _ (omega (arith, size))
          (Holds-right buf (base + start) handle (name ++ 0 ∷ []) at_handle) in
      rw
        (
          resolve_dfid_name,
          ge→ltb record_end start (omega arith),
          read_exactly buf fh 4 hb _ four at,
          ◌>>=◌,
          read_exactly buf (base + (fh_hdr_start + 4)) 4 ht _ four'
              (moved buf _ (omega (arith, four)) at_type),
          ◌>>=◌,
          resolve_handle,
          ge→ltb record_end name_start (omega (arith, size)),
          name_loop-Holds buf base record_end (record_end - name_start) name_start name at_name
              clean (omega (arith, size)) (omega (arith, size)),
          ◌>>=◌,
          read_exactly buf (base + name_start) (name_start + length name - name_start) name _
              (omega arith) at_name,
          ◌>>=◌,
          read_exactly buf (base + start) (lib.word hb) handle _ (sym size) at_handle,
          ◌>>=◌,
          size,
        )
        refl
