-- ===== src/Noise/Framing.antt =====
-- agent/osprey-core/src/noise/framing.rs: length-prefixed frames, and chunks with their flags.
-- The bytes and buffers of the source are lists of numbers below 256.
pub mod Content
pub mod Chunks
use osprey.Prelude.{
  ℕ, zero, suc, ◌+◌, ◌-◌, ◌*◌, ◌/◌, ◌%◌, ◌≤◌, Bool, true, false, ◌≡◌, Option, some, List, [], ◌∷◌,
  ◌++◌, length, take, drop, leb, ltb, ◌==◌, if◌then◌else◌, Result, ok, err, ◌>>=◌, ok_or,
}
use osprey.Errors.{Error, frame_too_large, truncated_frame, empty_chunk, bad_continuation_flag, io}
use osprey.Prelude.{Bytes}

abbrev pub noise_max_message_len : ℕ
noise_max_message_len = 65535

abbrev pub noise_tag_len : ℕ
noise_tag_len = 16

abbrev pub noise_max_plaintext_len : ℕ
noise_max_plaintext_len = noise_max_message_len - noise_tag_len

abbrev pub chunk_header_len : ℕ
chunk_header_len = 1

abbrev pub max_chunk_payload_len : ℕ
max_chunk_payload_len = noise_max_plaintext_len - chunk_header_len

abbrev pub default_max_message_len : ℕ
default_max_message_len = 4 * 1024 * 1024

abbrev pub flag_final : ℕ
flag_final = 0

abbrev pub flag_more : ℕ
flag_more = 1

-- `std::io::Write`, which the source is generic over: `none` is an io error. What has been written
-- is the bytes of the calls that succeeded, in order.
pub record Sink (W : Type 0) : Type 0 where
  pub write_all : W → Bytes → Option W
  pub flush : W → Option W
  pub written : W → Bytes
  pub written-write_all :
      (w : W) (bytes : Bytes) (w' : W)
      → write_all w bytes ≡ some w'
      → written w' ≡ written w ++ bytes
  pub written-flush : (w w' : W) → flush w ≡ some w' → written w' ≡ written w

-- What the successive calls of `std::io::Read::read` return: the bytes at hand (none of them is the
-- end of the stream; more than the buffer holds stay for the next call), an interruption, an error.
pub data ReadEvent : Type 0 where
  ready : Bytes → ReadEvent
  interrupted failed : ReadEvent

abbrev pub Source : Type 0
Source = List ReadEvent

-- `FrameRead`, with the buffer `out` that a whole frame is read into.
pub data FrameRead : Type 0 where
  frame : Bytes → FrameRead
  eof : FrameRead

-- `u16::to_be_bytes`, `u16::from_be_bytes`
abbrev pub to_be_bytes : ℕ → Bytes
to_be_bytes n = n / 256 ∷ n % 256 ∷ []

abbrev pub from_be_bytes : ℕ → ℕ → ℕ
from_be_bytes hi lo = hi * 256 + lo

module _ {W : Type 0} (sink : Sink W) where
  -- Write one length-prefixed message. Below the guard `u16::try_from` cannot fail.
  unfoldable pub write_frame : W → Bytes → Result Error W
  write_frame w message =
      if ltb noise_max_message_len (length message)
      then err (frame_too_large (length message) noise_max_message_len)
      else do
        w ← ok_or io (sink.write_all w (to_be_bytes (length message)))
        ok_or io (sink.write_all w message)

prepend : Bytes → Result Error (Bytes × Source) → Result Error (Bytes × Source)
prepend bytes (ok (more, s)) = ok (bytes ++ more, s)
prepend bytes (err e) = err e

-- `read_exact_or_eof`: what was read before the end of the stream, of the number of bytes wanted.
unfoldable pub read_exact_or_eof : ℕ → Source → Result Error (Bytes × Source)
unfolding prepend
read_exact_or_eof zero s = ok ([], s)
read_exact_or_eof (suc k) [] = ok ([], [])
read_exact_or_eof (suc k) (interrupted ∷ s) = read_exact_or_eof (suc k) s
read_exact_or_eof (suc k) (failed ∷ s) = err io
read_exact_or_eof (suc k) (ready [] ∷ s) = ok ([], s)
read_exact_or_eof (suc k) (ready (b ∷ bs) ∷ s) =
    let rest = prepend (b ∷ bs) (read_exact_or_eof (k - length bs) s) in
    if leb (length bs) k
    then rest
    else ok (take (suc k) (b ∷ bs), ready (drop (suc k) (b ∷ bs)) ∷ s)

-- The part of `read_frame` behind the two length bytes.
read_body : Bytes → Source → Result Error (FrameRead × Source)
read_body [] s = ok (eof, s)
read_body (hi ∷ lo ∷ []) s = do
  (out, s) ← read_exact_or_eof (from_be_bytes hi lo) s
  if length out == from_be_bytes hi lo
      then ok (frame out, s)
      else err (truncated_frame (length out) (from_be_bytes hi lo))
read_body got s = err (truncated_frame (length got) 2)

unfoldable pub read_frame : Source → Result Error (FrameRead × Source)
unfolding read_body
read_frame s = do (len_bytes, s) ← read_exact_or_eof 2 s; read_body len_bytes s

-- `slice::chunks`: consecutive parts of `size` bytes, the last maybe shorter. The length of the slice
-- is fuel enough, since each part takes a byte at least.
abbrev pub chunks_of : ℕ → ℕ → Bytes → List Bytes
chunks_of size zero xs = []
chunks_of size (suc fuel) [] = []
chunks_of size (suc fuel) (x ∷ xs) = take size (x ∷ xs) ∷ chunks_of size fuel (drop size (x ∷ xs))

-- `usize::div_ceil`
abbrev pub div_ceil : ℕ → ℕ → ℕ
div_ceil a b = if a % b == 0 then a / b else a / b + 1

-- The `enumerate().map(...)` of `split_into_chunks`, from part `i` on.
flag_parts : ℕ → ℕ → List Bytes → List Bytes
flag_parts total i [] = []
flag_parts total i (part ∷ parts) =
    ((if i + 1 == total then flag_final else flag_more) ∷ part) ∷ flag_parts total (i + 1) parts

unfoldable pub split_into_chunks : Bytes → List Bytes
unfolding flag_parts
split_into_chunks [] = (flag_final ∷ []) ∷ []
split_into_chunks (b ∷ bs) =
    flag_parts (div_ceil (length (b ∷ bs)) max_chunk_payload_len) 0
      (chunks_of max_chunk_payload_len (length (b ∷ bs)) (b ∷ bs))

-- Strip and interpret a chunk's continuation flag.
unfoldable pub split_chunk_header : Bytes → Result Error (Bool × Bytes)
split_chunk_header [] = err empty_chunk
split_chunk_header (flag ∷ body) =
    if flag == flag_final
    then ok (true, body)
    else if flag == flag_more
    then ok (false, body)
    else err (bad_continuation_flag flag)
