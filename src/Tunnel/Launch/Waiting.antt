-- ===== src/Tunnel/Launch/Waiting.antt =====
-- The wait for the proxy's length prefix in `connect_with_config_blocking` of src/lib.rs ends.
use tap_tunnel.Prelude.{
  ℕ, zero, suc, ◌+◌, ◌-◌, ◌≤◌, ◌<◌, ◌≡◌, refl, sym, ap, ◌∙◌, true, Option, some, [], ◌∷◌, ◌++◌,
  append_assoc, length, length-append, leb, Bool-cases, Option-cases, inl, inr, ◌⊎◌, arith,
}
use tap_tunnel.Io.{IoResult, IoError, ok, err, io_error, unexpected_eof, timed_out}
use tap_tunnel.Bytes.{Bytes}
use tap_tunnel.Tunnel.Launch.{Child, closed_message, read_prefix_loop, retry, is_timeout}

-- What the stream and the clock do: a read takes a prefix of what is to come, no longer than asked
-- for; one that fails takes nothing, and `ticks` of them bring the deadline.
pub record ChildLaws {D : Type 0} (child : Child D) : Type 0 where
  pub input : D → Bytes
  pub ticks : D → ℕ
  pub read-ok :
      (d : D) (n : ℕ) (bs : Bytes)
      → (child.read d n).0 ≡ ok bs
      → (length bs ≤ n)
        × (input d ≡ bs ++ input (child.read d n).1)
        × (ticks (child.read d n).1 ≤ ticks d)
  pub read-err :
      (d : D) (n : ℕ) (e : IoError)
      → (child.read d n).0 ≡ err e
      → (input (child.read d n).1 ≡ input d)
        × ((child.past_deadline (child.read d n).1 ≡ true) ⊎ (ticks (child.read d n).1 < ticks d))

module _ {D : Type 0} (child : Child D) (laws : ChildLaws child) where
  open laws use {input, ticks, read-ok, read-err}

  -- An error, or exactly `want` bytes from the front of the input.
  abbrev pub Waited : Option (IoResult (Bytes × D)) → D → ℕ → Type 0
  Waited r d want =
      ((e : IoError) × (r ≡ some (err e)))
      ⊎ ((bs : Bytes) × (d' : D) × (r ≡ some (ok (bs, d')))
          × (length bs ≡ want)
          × (input d ≡ bs ++ input d'))

  abbrev next : D → ℕ → D
  next d want = (child.read d want).1

  retry-late : (d : D) → child.past_deadline d ≡ true → (e : IoError) × (retry child d ≡ some e)
  unfolding retry
  retry-late d late = (io_error timed_out "timed out waiting for proxy handshake", ground arith)

  read_more :
      (fuel : ℕ) (d : D) (want : ℕ) (r : IoResult Bytes)
      → (child.read d want).0 ≡ r
      → want + ticks d < suc fuel
      → ((m : ℕ)
          → m + ticks (next d want) < fuel
          → Waited (read_prefix_loop child fuel (next d want) m) (next d want) m)
      → Waited (read_prefix_loop child (suc fuel) d want) d want
  unfolding read_prefix_loop
  read_more fuel d want (ok []) got enough ih =
      inl
        (io_error unexpected_eof (closed_message child (child.stderr (next d want))), ground arith)
  read_more fuel d want (ok (b ∷ bs)) got enough ih =
      let (few, front, slower) = read-ok d want (b ∷ bs) got in
      elim (Bool-cases (leb want (length (b ∷ bs)))) [
        | inl all ↦ inr (b ∷ bs, next d want, ground arith, ground arith, front)
        | inr part ↦ elim (ih (want - length (b ∷ bs)) (ground arith)) [
          | inl (e, ran) ↦ inl (e, ground arith)
          | inr (rest, last, ran, len, front') ↦ inr (
            (b ∷ bs) ++ rest,
            last,
            ground arith,
            ground (arith, length-append bs rest),
            front ∙ ap (λ t. (b ∷ bs) ++ t) front' ∙ sym (append_assoc (b ∷ bs) rest (input last)),
          )
        ]
      ]
  read_more fuel d want (err e) got enough ih =
      let (kept, tick) = read-err d want e got in
      elim (Bool-cases (is_timeout child e.kind)) [
        | inr fails ↦ inl (e, ground arith)
        | inl timeout ↦ elim (Option-cases (retry child (next d want))) [
          | inr (e', stops) ↦ inl (e', ground arith)
          | inl again ↦ elim tick [
            | inl late ↦ let (e', stops) = retry-late (next d want) late in inl (e', ground arith)
            | inr earlier ↦ elim (ih want (omega arith)) [
              | inl (e', ran) ↦ inl (e', ground arith)
              | inr (bs, last, ran, len, front) ↦
                  inr (bs, last, ground arith, len, sym kept ∙ front)
            ]
          ]
        ]
      ]

  -- The wait ends, with fuel for the bytes that are missing and for the timeouts until the deadline:
  -- with an error, or with exactly the bytes of the prefix, from the front of the input, whatever
  -- part of them each read gives and however many reads time out before the deadline.
  pub read_prefix_loop-Waited :
      (fuel : ℕ) (d : D) (want : ℕ)
      → want + ticks d < fuel
      → Waited (read_prefix_loop child fuel d want) d want
  read_prefix_loop-Waited zero d want enough = absurd (omega arith)
  read_prefix_loop-Waited (suc fuel) d want enough =
      read_more fuel d want (child.read d want).0 refl enough
        (λ m few. read_prefix_loop-Waited fuel (next d want) m few)
