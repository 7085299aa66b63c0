-- ===== src/Protocol/Framing.antt =====
-- The length-prefixed wire format of src/protocol.rs over `std::io::Write` and `Read`.
use tap_tunnel.Prelude.{
  ℕ, ◌-◌, ◌%◌, ◌^◌, ◌++◌, ltb, leb, ◌==◌, if◌then◌else◌, length, take, drop, replicate,
}
use tap_tunnel.Io.{IoResult, ok, err, io_error, invalid_data, unexpected_eof, ◌>>=◌}
use tap_tunnel.Bytes.{Bytes, from_be, u32_to_be}

-- The methods of the two traits that the code calls; an error ends the use of the stream.
pub record Write (W : Type 0) : Type 0 where
  pub write_all : W → Bytes → IoResult W

pub record Read (R : Type 0) : Type 0 where
  pub read_exact : R → ℕ → IoResult (Bytes × R)

-- `impl Write for Vec<u8>`
instance abbrev pub write_bytes : Write Bytes
write_bytes = record { write_all = λ out bs. ok (out ++ bs) }

-- `impl Read for &[u8]`
instance abbrev pub read_bytes : Read Bytes
read_bytes = record {
  read_exact = λ bs n.
      if leb n (length bs)
      then ok (take n bs, drop n bs)
      else err (io_error unexpected_eof "failed to fill whole buffer");
}

unfoldable pub write_framed_sync : {W : Type 0} ⦃w : Write W⦄ → W → Bytes → IoResult W
write_framed_sync ⦃w⦄ writer msg = do
  writer' ← w.write_all writer (u32_to_be (length msg % 2 ^ 32))
  w.write_all writer' msg

-- `if buf.len() < len { buf.resize(len, 0) }`
unfoldable pub grow : Bytes → ℕ → Bytes
grow buf len = if ltb (length buf) len then buf ++ replicate (len - length buf) 0 else buf

-- The number of bytes read, the caller's buffer, and the reader.
unfoldable pub read_framed_sync : {R : Type 0} ⦃r : Read R⦄ → R → Bytes → IoResult (ℕ × Bytes × R)
read_framed_sync ⦃r⦄ reader buf = do
  (len_buf, reader') ← r.read_exact reader 4
  if from_be len_buf == 0 then err (io_error invalid_data "zero-length frame") else do
    (body, reader'') ← r.read_exact reader' (from_be len_buf)
    ok (from_be len_buf, body ++ drop (from_be len_buf) (grow buf (from_be len_buf)), reader'')
