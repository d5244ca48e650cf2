-- ===== src/Daemon/Connector.antt =====
-- `proc_connector` of src/bin/whodidd.rs: the message that subscribes, and the loop over the datagrams,
-- whose fields stand at fixed offsets. The numbers are those of linux/connector.h and linux/cn_proc.h.
use whenfs.Prelude.{
  ℕ, zero, suc, ◌+◌, ◌≡◌, refl, ap, ◌≤◌, ◌<◌, true, false, Option, none, some, List, [], ◌∷◌, ◌++◌,
  inl, inr, if◌then◌else◌, eqb, ltb, leb, length, length-append, arith, Bool-cases, le→leb,
}
use whenfs.Daemon.{System, Daemon, Message, forked, execed, exited_now, on_message}
use whenfs.Daemon.Buffer.{Access, done, ◌>>=◌, Libc, take, drop, read_at}
use whenfs.Daemon.Legacy.{fill}

abbrev zeros : ℕ → List ℕ
zeros zero = []
zeros (suc n) = 0 ∷ zeros n

-- `buf[at..at + src.len()].copy_from_slice(src)`
abbrev copy_to : ℕ → List ℕ → List ℕ → List ℕ
copy_to at src buf = take at buf ++ (src ++ drop (at + length src) buf)

-- The header of netlink, that of the connector, and the word `PROC_CN_MCAST_LISTEN`; `half` is
-- `to_ne_bytes` of a `u16`.
unfoldable pub subscription : Libc → (ℕ → List ℕ) → ℕ → List ℕ
subscription lib half self_pid = copy_to 36 (lib.bytes 1) (
    copy_to 32 (half 4) (
      copy_to 20 (lib.bytes 1) (
        copy_to 16 (lib.bytes 1) (
          copy_to 12 (lib.bytes self_pid)
            (copy_to 4 (half 3) (copy_to 0 (lib.bytes 40) (zeros 40)))))))

module _ (lib : Libc) where
  -- The child of a fork stands two words behind the parent.
  abbrev fork_message : List ℕ → ℕ → ℕ → Access (Option Message)
  fork_message buf n parent = elim (ltb n 64) [
    | true ↦ done none
    | false ↦ read_at 60 4 buf >>= λ child. done (some (forked parent (lib.word child)))
  ]

  abbrev message_by : List ℕ → ℕ → ℕ → ℕ → Access (Option Message)
  message_by buf n what pid = elim (eqb what 1) [
    | true ↦ fork_message buf n pid
    | false ↦ done (
        if eqb what 2
        then some (execed pid)
        else if eqb what 2147483648
        then some (exited_now pid)
        else none)
  ]

  -- What the first `n` bytes of the buffer tell, or nothing of interest.
  unfoldable pub read_message : List ℕ → ℕ → Access (Option Message)
  unfolding read_at
  read_message buf n = elim (ltb n 56) [
    | true ↦ done none
    | false ↦ read_at 36 4 buf >>= λ what.
        read_at 52 4 buf >>= λ pid. message_by buf n (lib.word what) (lib.word pid)
  ]

  abbrev pub deal : System → Option Message → Daemon → Daemon
  deal s none d = d
  deal s (some m) d = on_message s m d

  -- The loop over the datagrams; one that is empty, or a `recv` that fails, ends it.
  unfoldable pub proc_connector : List (System × List ℕ) → List ℕ → Daemon → Access Daemon
  unfolding read_message on_message
  proc_connector [] buf d = done d
  proc_connector ((s, []) ∷ reads) buf d = done d
  proc_connector ((s, c ∷ cs) ∷ reads) buf d =
      let bytes = c ∷ cs in
      read_message (fill bytes buf) (length bytes) >>= λ m.
      proc_connector reads (fill bytes buf) (deal s m d)

  -- Four bytes of a datagram, as a number.
  abbrev pub word_at : ℕ → List ℕ → ℕ
  word_at at bytes = lib.word (take 4 (drop at bytes))

  -- What a datagram means by itself.
  abbrev pub meaning : List ℕ → Option Message
  meaning bytes =
      let n = length bytes in
      let what = word_at 36 bytes in
      let pid = word_at 52 bytes in
      if leb 56 n
      then if eqb what 1
        then if leb 64 n then some (forked pid (word_at 60 bytes)) else none
        else if eqb what 2
        then some (execed pid)
        else if eqb what 2147483648
        then some (exited_now pid)
        else none
      else none

  abbrev pub messages_of : List (System × List ℕ) → Daemon → Daemon
  messages_of [] d = d
  messages_of ((s, []) ∷ reads) d = d
  messages_of ((s, c ∷ cs) ∷ reads) d = messages_of reads (deal s (meaning (c ∷ cs)) d)

take-drop-append :
    (at n : ℕ) (xs ys : List ℕ)
    → at + n ≤ length xs
    → take n (drop at (xs ++ ys)) ≡ take n (drop at xs)
take-drop-append zero zero xs ys h = refl
take-drop-append zero (suc n) [] ys h = ground arith
take-drop-append zero (suc n) (x ∷ xs) ys h =
    ap (λ zs. x ∷ zs) (take-drop-append zero n xs ys (omega arith))
take-drop-append (suc at) n [] ys h = ground arith
take-drop-append (suc at) n (x ∷ xs) ys h = take-drop-append at n xs ys (omega arith)

gt→leb : (a b : ℕ) → b < a → leb a b ≡ false
gt→leb a b h = ground arith

module _ (lib : Libc) (bytes buf : List ℕ) where
  read_at-fill :
      (at : ℕ)
      → at + 4 ≤ length bytes
      → read_at at 4 (fill bytes buf) ≡ done (take 4 (drop at bytes))
  unfolding read_at
  read_at-fill at h =
      rw
        (
          read_at,
          take-drop-append at 4 bytes (drop (length bytes) buf) h,
          length-append bytes (drop (length bytes) buf),
          le→leb (at + 4) (length bytes + length (drop (length bytes) buf)) (omega arith),
        )
        refl

  by_kind :
      56 ≤ length bytes
      → message_by lib (fill bytes buf) (length bytes) (word_at lib 36 bytes) (word_at lib 52 bytes)
        ≡ done (meaning lib bytes)
  by_kind enough = elim (Bool-cases (eqb (word_at lib 36 bytes) 1)) [
    | inr other ↦ rw (message_by, other, le→leb 56 (length bytes) enough) refl
    | inl fork ↦ elim (Bool-cases (ltb (length bytes) 64)) [
      | inl short ↦
          rw
            (
              message_by,
              fork,
              fork_message,
              short,
              le→leb 56 (length bytes) enough,
              gt→leb 64 (length bytes) (ground arith),
            )
            refl
      | inr long ↦
          rw
            (
              message_by,
              fork,
              fork_message,
              long,
              read_at-fill 60 (ground arith),
              ◌>>=◌,
              le→leb 56 (length bytes) enough,
              le→leb 64 (length bytes) (ground arith),
            )
            refl
    ]
  ]

  read_message-meaning : read_message lib (fill bytes buf) (length bytes) ≡ done (meaning lib bytes)
  unfolding read_message
  read_message-meaning = elim (Bool-cases (ltb (length bytes) 56)) [
    | inl short ↦ rw (read_message, short, gt→leb 56 (length bytes) (ground arith)) refl
    | inr long ↦
        rw
          (
            read_message,
            long,
            read_at-fill 36 (ground arith),
            ◌>>=◌,
            read_at-fill 52 (ground arith),
            ◌>>=◌,
          )
          (by_kind (ground arith))
  ]

-- Whatever datagrams come, and whatever earlier ones left in the buffer, the loop reads no byte outside
-- it, ends with the reads or at the first that gives nothing, and has dealt with the messages that the
-- datagrams before it mean, each once and in their order, and with none behind it; what one means
-- depends on its own bytes only, and one that is too short for its kind means nothing.
pub proc_connector_lem :
    (lib : Libc) (reads : List (System × List ℕ)) (buf : List ℕ) (d : Daemon)
    → proc_connector lib reads buf d ≡ done (messages_of lib reads d)
unfolding proc_connector
proc_connector_lem lib [] buf d = refl
proc_connector_lem lib ((s, []) ∷ reads) buf d = refl
proc_connector_lem lib ((s, c ∷ cs) ∷ reads) buf d =
    let bytes = c ∷ cs in
    rw (proc_connector, read_message-meaning lib bytes buf, ◌>>=◌)
      (proc_connector_lem lib reads (fill bytes buf) (deal lib s (meaning lib bytes) d))
