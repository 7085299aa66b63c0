-- ===== src/Protocol/Streams.antt =====
-- Length-prefixed messages on a byte stream (src/protocol.rs): what `write_framed_sync` writes,
-- `read_framed_sync` reads, one message or many.
use tap_tunnel.Prelude.{
  ℕ, zero, suc, ◌-◌, ◌%◌, ◌^◌, ◌<◌, ◌≡◌, refl, sym, ap, ◌∙◌, List, [], ◌∷◌, ◌++◌, append-nil,
  append_assoc, arith, ltb, ◌==◌, length, length-append, take, drop, replicate, take-length_append,
  drop-length_append, drop-of_le, length-replicate, All, false, Bool-cases, inl, inr,
}
use tap_tunnel.Io.{IoResult, ok, ◌>>=◌}
use tap_tunnel.Bytes.{Bytes, from_be, u32_to_be, from_be-u32_to_be}
use tap_tunnel.Protocol.Framing.{write_framed_sync, read_framed_sync, grow, write_bytes, read_bytes}

-- A message that the 4-byte prefix can carry, and that the reader accepts.
abbrev pub Fits : Bytes → Type 0
Fits msg = (0 < length msg) × (length msg < 2 ^ 32)

-- The bytes of one framed message.
unfoldable pub framed : Bytes → Bytes
framed msg = u32_to_be (length msg % 2 ^ 32) ++ msg

pub write_framed_sync-framed :
    (out msg : Bytes) → write_framed_sync out msg ≡ ok (out ++ framed msg)
unfolding write_framed_sync framed
write_framed_sync-framed out msg = ap ok (append_assoc out (u32_to_be (length msg % 2 ^ 32)) msg)

drop-grow : (buf : Bytes) (n : ℕ) → drop n (grow buf n) ≡ drop n buf
unfolding grow
drop-grow buf n = elim (Bool-cases (ltb (length buf) n)) [
  | inl short ↦ rw short (
      drop-of_le n (buf ++ replicate (n - length buf) 0) (
        ground (
          arith,
          length-append buf (replicate (n - length buf) 0),
          length-replicate {A = ℕ} (n - length buf) 0,
        ))
      ∙ sym (drop-of_le n buf (ground arith)))
  | inr long ↦ rw long
]

pub read_prefix :
    (n : ℕ) (rest : Bytes) → read_bytes.read_exact (u32_to_be n ++ rest) 4 ≡ ok (u32_to_be n, rest)
unfolding u32_to_be
read_prefix n rest = ground arith

pub read_body :
    (n : ℕ) (body rest : Bytes)
    → length body ≡ n
    → read_bytes.read_exact (body ++ rest) n ≡ ok (body, rest)
read_body n body rest e = ground (
  arith,
  length-append body rest,
  ap (λ k. take k (body ++ rest)) e,
  ap (λ k. drop k (body ++ rest)) e,
  take-length_append body rest,
  drop-length_append body rest,
)

-- Reading one framed message takes exactly its bytes, returns its length, and puts it at the front
-- of the buffer; what the buffer held beyond the message stays.
pub read_framed_sync-framed :
    (msg rest buf : Bytes)
    → Fits msg
    → read_framed_sync (framed msg ++ rest) buf
      ≡ ok (length msg, msg ++ drop (length msg) buf, rest)
unfolding read_framed_sync framed
read_framed_sync-framed msg rest buf (some_bytes, few) =
    let len : from_be (u32_to_be (length msg % 2 ^ 32)) ≡ length msg =
      omega (arith, from_be-u32_to_be (length msg % 2 ^ 32)) in
    rw (append_assoc, read_prefix (length msg % 2 ^ 32) (msg ++ rest))
      (rw len (rw (nonzero, read_body (length msg) msg rest refl, drop-grow)))
  where
    nonzero : (length msg == 0) ≡ false
    nonzero = ground arith

-- A run of framed messages.
abbrev pub framed_all : List Bytes → Bytes
framed_all [] = []
framed_all (msg ∷ msgs) = framed msg ++ framed_all msgs

pub framed_all-append :
    (xs ys : List Bytes) → framed_all (xs ++ ys) ≡ framed_all xs ++ framed_all ys
framed_all-append [] ys = refl
framed_all-append (x ∷ xs) ys =
    ap (λ t. framed x ++ t) (framed_all-append xs ys) ∙ sym (append_assoc (framed x) _ _)

-- `write_framed_sync` for each message in turn, as a sender does.
unfoldable pub write_all_framed : Bytes → List Bytes → IoResult Bytes
write_all_framed out [] = ok out
write_all_framed out (msg ∷ msgs) = do out' ← write_framed_sync out msg; write_all_framed out' msgs

-- `read_framed_sync` for `n` messages, each into the buffer that the one before left; the message
-- is the part of the buffer that the returned length marks.
unfoldable pub read_all_framed : ℕ → Bytes → Bytes → IoResult (List Bytes × Bytes)
read_all_framed zero buf stream = ok ([], stream)
read_all_framed (suc n) buf stream = do
  (len, buf', stream') ← read_framed_sync stream buf
  (msgs, rest) ← read_all_framed n buf' stream'
  ok (take len buf' ∷ msgs, rest)

write_all_framed-framed_all :
    (out : Bytes) (msgs : List Bytes) → write_all_framed out msgs ≡ ok (out ++ framed_all msgs)
unfolding write_all_framed
write_all_framed-framed_all out [] = rw append-nil
write_all_framed-framed_all out (msg ∷ msgs) = rw (write_framed_sync-framed out msg) (
    write_all_framed-framed_all (out ++ framed msg) msgs
    ∙ ap ok (append_assoc out (framed msg) (framed_all msgs)))

read_all_framed-framed_all :
    (buf rest : Bytes) (msgs : List Bytes)
    → All Fits msgs
    → read_all_framed (length msgs) buf (framed_all msgs ++ rest) ≡ ok (msgs, rest)
unfolding read_all_framed
read_all_framed-framed_all buf rest [] h = refl
read_all_framed-framed_all buf rest (msg ∷ msgs) h = rw (
  append_assoc,
  read_framed_sync-framed msg (framed_all msgs ++ rest) buf h.0,
  read_all_framed-framed_all (msg ++ drop (length msg) buf) rest msgs h.1,
  take-length_append,
)

-- Messages written with `write_framed_sync`, each nonempty and shorter than 2^32 bytes, are read
-- back by `read_framed_sync` one by one, in order and whole, whatever buffer the reader starts
-- with, and the bytes that follow them are left on the stream.
pub read_all_framed-write_all_framed :
    (buf rest : Bytes) (msgs : List Bytes)
    → All Fits msgs
    → (stream : Bytes) × (write_all_framed [] msgs ≡ ok stream)
      × (read_all_framed (length msgs) buf (stream ++ rest) ≡ ok (msgs, rest))
read_all_framed-write_all_framed buf rest msgs h = (
  framed_all msgs,
  write_all_framed-framed_all [] msgs,
  read_all_framed-framed_all buf rest msgs h,
)
