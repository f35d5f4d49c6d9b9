-- ===== src/Ipc/Codec.antt =====
-- The framing of messages (daemon-go/internal/ipc/codec.go). A byte is a number below 256, and a
-- stream is the list of its bytes; `encode` and `decode` are json.Marshal and json.Unmarshal.
pub mod RoundTrip
use iron_link.Prelude.{
  ℕ, suc, zero, ◌+◌, ◌*◌, ◌/◌, ◌%◌, Bool, true, false, Option, none, some, List, [], ◌∷◌, ◌++◌,
  length, ltb, if◌then◌else◌, Result, ok, err, ◌>>=◌,
}

abbrev pub max_frame_len : ℕ
max_frame_len = 16777216

pub data FrameError : Type 0 where
  not_encoded not_decoded : FrameError
  too_large : ℕ → FrameError
  eof unexpected_eof : FrameError

-- `binary.BigEndian.PutUint32`
unfoldable pub put_uint32 : ℕ → List ℕ
put_uint32 n = n / 16777216 % 256 ∷ n / 65536 % 256 ∷ n / 256 % 256 ∷ n % 256 ∷ []

-- `binary.BigEndian.Uint32`
abbrev pub uint32 : ℕ → ℕ → ℕ → ℕ → ℕ
uint32 a b c d = a * 16777216 + b * 65536 + c * 256 + d

-- The first bytes and the rest, where there are so many.
abbrev pub split_at : ℕ → List ℕ → Option (List ℕ × List ℕ)
split_at zero xs = some ([], xs)
split_at (suc n) [] = none
split_at (suc n) (x ∷ xs) =
    let rest = split_at n xs in elim rest [ none ↦ none | some (ys, zs) ↦ some (x ∷ ys, zs) ]

-- `io.ReadFull` of n bytes: EOF before the first byte, an unexpected EOF after it.
unfoldable pub read_full : ℕ → List ℕ → Result FrameError (List ℕ × List ℕ)
read_full n xs = elim (split_at n xs) [
  | some r ↦ ok r
  | none ↦ (elim xs [ [] ↦ err eof | _ ∷ _ ↦ err unexpected_eof ])
]

module _ {ℓ} {V : Type ℓ} where
  -- The bytes that `WriteFrame` writes.
  unfoldable pub write_frame : (V → Option (List ℕ)) → V → Result FrameError (List ℕ)
  write_frame encode v = elim (encode v) [
    | none ↦ err not_encoded
    | some body ↦
        if ltb max_frame_len (length body)
        then err (too_large (length body))
        else ok (put_uint32 (length body) ++ body)
  ]

  -- The body behind a header, and the bytes that are left.
  unfoldable pub read_body : (List ℕ → Option V) → ℕ → List ℕ → Result FrameError (V × List ℕ)
  read_body decode n bytes =
      if ltb max_frame_len n
      then err (too_large n)
      else read_full n bytes >>= λ r. (elim (decode r.0) [
        | none ↦ err not_decoded
        | some v ↦ ok (v, r.1)
      ])

  unfoldable pub read_frame : (List ℕ → Option V) → List ℕ → Result FrameError (V × List ℕ)
  read_frame decode (a ∷ b ∷ c ∷ d ∷ bytes) = read_body decode (uint32 a b c d) bytes
  read_frame decode [] = err eof
  read_frame decode _ = err unexpected_eof

  -- So many frames, one after the other.
  unfoldable pub read_frames :
      (List ℕ → Option V) → ℕ → List ℕ → Result FrameError (List V × List ℕ)
  read_frames decode zero bytes = ok ([], bytes)
  read_frames decode (suc n) bytes = do
    (v, rest) ← read_frame decode bytes
    (vs, left) ← read_frames decode n rest
    ok (v ∷ vs, left)

  unfoldable pub write_frames : (V → Option (List ℕ)) → List V → Result FrameError (List ℕ)
  write_frames encode [] = ok []
  write_frames encode (v ∷ vs) = do
    frame ← write_frame encode v
    rest ← write_frames encode vs
    ok (frame ++ rest)
