-- ===== src/Proxy/Transfers.antt =====
-- `read_exact_fd` and `write_all_fd` of proxy/src/main.rs: the loops around the system calls `read`
-- and `write`, which may move fewer bytes than asked for.
use tap_tunnel.Prelude.{
  ℕ, zero, suc, ◌+◌, ◌-◌, ◌≤◌, ◌<◌, ◌≡◌, refl, sym, ap, ◌∙◌, Option, some, [], ◌∷◌, ◌++◌,
  append-nil, append_assoc, length, take, drop, take-append-drop, length-drop, length-append, ◌==◌,
  arith, Bool-cases, inl, inr, ◌⊎◌,
}
use tap_tunnel.Io.{IoResult, ok, err, IoError, IoResult-cases, io_error, unexpected_eof}
use tap_tunnel.Bytes.{Bytes}
use tap_tunnel.Proxy.Handshake.{Descriptor, read_exact_fd, write_all_fd}

-- What a descriptor's calls do: `read` takes a prefix of what is to come, no longer than asked for;
-- `write` puts a prefix of the buffer. A `write` may put nothing, but only so often: `stalls` bounds
-- how many more calls do.
pub record DescriptorLaws {D : Type 0} (os : Descriptor D) : Type 0 where
  pub input : D → Bytes
  pub output : D → Bytes
  pub stalls : D → ℕ
  pub read-ok :
      (fd : D) (n : ℕ) (bs : Bytes) (fd' : D)
      → os.read fd n ≡ ok (bs, fd')
      → (length bs ≤ n)
        × (input fd ≡ bs ++ input fd')
        × (output fd' ≡ output fd)
        × (stalls fd' ≡ stalls fd)
  pub write-ok :
      (fd : D) (bs : Bytes) (n : ℕ) (fd' : D)
      → os.write fd bs ≡ ok (n, fd')
      → 0 < length bs
      → (n ≤ length bs)
        × (output fd' ≡ output fd ++ take n bs)
        × (input fd' ≡ input fd)
        × (((0 < n) × (stalls fd' ≡ stalls fd)) ⊎ (stalls fd' < stalls fd))

module _ {D : Type 0} (os : Descriptor D) (laws : DescriptorLaws os) where
  open laws use {input, output, stalls, read-ok, write-ok}

  -- An error that a call of `write` gives.
  abbrev pub WriteFails : IoError → Type 0
  WriteFails e = (fd : D) × (bs : Bytes) × (os.write fd bs ≡ err e)

  -- An error that a call of `read` gives, or the end of the input before the last byte.
  abbrev pub ReadFails : IoError → Type 0
  ReadFails e =
      ((fd : D) × (n : ℕ) × (os.read fd n ≡ err e))
      ⊎ ((fd fd' : D) × (n : ℕ) × (0 < n)
          × (os.read fd n ≡ ok ([], fd'))
          × (e ≡ io_error unexpected_eof "connection closed"))

  -- A result that is an error of `write`, or all of `buf` written.
  abbrev pub Writes : Option (IoResult D) → D → Bytes → Type 0
  Writes r fd buf =
      ((e : IoError) × (r ≡ some (err e)) × WriteFails e)
      ⊎ ((fd' : D) × (r ≡ some (ok fd'))
          × (output fd' ≡ output fd ++ buf)
          × (input fd' ≡ input fd)
          × (stalls fd' ≤ stalls fd))

  -- With more fuel than there are bytes and calls that put nothing, `write_all_fd` ends: with an
  -- error that a call of `write` gives, or with all of the buffer written, in order, whatever part of
  -- it each call took.
  pub write_all_fd-Writes :
      (fuel : ℕ) (fd : D) (buf : Bytes)
      → length buf + stalls fd < fuel
      → Writes (write_all_fd os fuel fd buf) fd buf
  unfolding write_all_fd
  write_all_fd-Writes zero fd buf enough = absurd (omega arith)
  write_all_fd-Writes (suc fuel) fd [] enough =
      inr (fd, refl, sym (append-nil _), refl, omega arith)
  write_all_fd-Writes (suc fuel) fd (b ∷ bs) enough = elim (IoResult-cases (os.write fd (b ∷ bs))) [
    | inr (e, failed) ↦ inl (e, ground arith, (fd, b ∷ bs, failed))
    | inl ((n, fd'), wrote) ↦
        let (few, put, kept, moves) = write-ok fd (b ∷ bs) n fd' wrote (omega arith) in
        let goes_down : length (drop n (b ∷ bs)) + stalls fd' < length (b ∷ bs) + stalls fd =
          ground (arith, length-drop n (b ∷ bs), moves) in
        let bounded : stalls fd' ≤ stalls fd = ground (arith, moves) in
        elim (write_all_fd-Writes fuel fd' (drop n (b ∷ bs)) (omega arith)) [
          | inl (e, failed, why) ↦ inl (e, ground arith, why)
          | inr (last, ran, put', kept', fewer) ↦ inr (
            last,
            ground arith,
            put'
                ∙ ap (λ t. t ++ drop n (b ∷ bs)) put
                ∙ append_assoc (output fd) (take n (b ∷ bs)) (drop n (b ∷ bs))
                ∙ ap (λ t. output fd ++ t) (take-append-drop n (b ∷ bs)),
            kept' ∙ kept,
            omega arith,
          )
        ]
  ]

  -- A result that is such an error, or exactly `want` bytes, taken from the front of the input.
  abbrev pub ReadsExactly : Option (IoResult (Bytes × D)) → D → ℕ → Type 0
  ReadsExactly r fd want =
      ((e : IoError) × (r ≡ some (err e)) × ReadFails e)
      ⊎ ((bs : Bytes) × (fd' : D) × (r ≡ some (ok (bs, fd')))
          × (length bs ≡ want)
          × (input fd ≡ bs ++ input fd')
          × (output fd' ≡ output fd)
          × (stalls fd' ≡ stalls fd))

  read_part :
      (fuel : ℕ) (fd : D) (want : ℕ) (bs : Bytes) (fd' : D)
      → os.read fd want ≡ ok (bs, fd')
      → 0 < want
      → ((m : ℕ) → m < want → ReadsExactly (read_exact_fd os fuel fd' m) fd' m)
      → ReadsExactly (read_exact_fd os (suc fuel) fd want) fd want
  unfolding read_exact_fd
  read_part fuel fd want [] fd' got more ih = inl (
    io_error unexpected_eof "connection closed",
    ground arith,
    inr (fd, fd', want, more, got, refl),
  )
  read_part fuel fd want (b ∷ bs) fd' got more ih =
      let (few, front, kept, same) = read-ok fd want (b ∷ bs) fd' got in
      elim (ih (want - length (b ∷ bs)) (omega arith)) [
        | inl (e, failed, why) ↦ inl (e, ground arith, why)
        | inr (rest, last, ran, len, front', kept', same') ↦ inr (
          (b ∷ bs) ++ rest,
          last,
          ground arith,
          omega (arith, length-append bs rest),
          front ∙ ap (λ t. (b ∷ bs) ++ t) front' ∙ sym (append_assoc (b ∷ bs) rest (input last)),
          kept' ∙ kept,
          same' ∙ same,
        )
      ]

  -- With more fuel than the bytes wanted, `read_exact_fd` ends: with an error that a call of
  -- `read` gives, with `UnexpectedEof` after a `read` that gave nothing, or with exactly the bytes
  -- wanted from the front of the input, whatever part each `read` gives.
  pub read_exact_fd-ReadsExactly :
      (fuel : ℕ) (fd : D) (want : ℕ)
      → want < fuel
      → ReadsExactly (read_exact_fd os fuel fd want) fd want
  unfolding read_exact_fd
  read_exact_fd-ReadsExactly zero fd want enough = absurd (omega arith)
  read_exact_fd-ReadsExactly (suc fuel) fd want enough = elim (Bool-cases (want == 0)) [
    | inl nothing ↦ inr ([], fd, ground arith, ground arith, refl, refl, refl)
    | inr more ↦ elim (IoResult-cases (os.read fd want)) [
      | inr (e, failed) ↦ inl (e, ground arith, inl (fd, want, failed))
      | inl ((bs, fd'), got) ↦
          read_part fuel fd want bs fd' got (ground arith)
            (λ m less. read_exact_fd-ReadsExactly fuel fd' m (omega arith))
    ]
  ]
