-- ===== src/Ipc/Codec/RoundTrip.antt =====
-- Frames that are written, and read again.
use iron_link.Prelude.{
  ℕ, suc, ◌/◌, ◌%◌, ◌≤◌, ◌≡◌, refl, sym, ap, ◌∙◌, subst, false, Option, some, List, [], ◌∷◌, ◌++◌,
  append_assoc, arith, length, ltb, ok, >>=-eq-ok, ok-injective, Bool-cases, Option-cases, inl, inr,
}
use iron_link.Ipc.Codec.{
  max_frame_len, put_uint32, uint32, split_at, read_full, write_frame, read_body, read_frame,
  read_frames, write_frames,
}

uint32-put_uint32 :
    (n : ℕ)
    → n ≤ 16777216
    → uint32 (n / 16777216 % 256) (n / 65536 % 256) (n / 256 % 256) (n % 256) ≡ n
uint32-put_uint32 n h = omega arith

split_at-append : (xs ys : List ℕ) → split_at (length xs) (xs ++ ys) ≡ some (xs, ys)
split_at-append [] ys = refl
split_at-append (x ∷ xs) ys = rw (split_at-append xs ys) refl

module _ {ℓ} {V : Type ℓ} (encode : V → Option (List ℕ)) (decode : List ℕ → Option V)
    (decodes : (v : V) (body : List ℕ) → encode v ≡ some body → decode body ≡ some v) where
  write_frame-fits :
      (v : V) (body : List ℕ)
      → encode v ≡ some body
      → ltb max_frame_len (length body) ≡ false
      → write_frame encode v ≡ ok (put_uint32 (length body) ++ body)
  unfolding write_frame
  write_frame-fits v body e l = rw (e, l, write_frame) refl

  read_body-append :
      (v : V) (body rest : List ℕ)
      → encode v ≡ some body
      → ltb max_frame_len (length body) ≡ false
      → read_body decode (length body) (body ++ rest) ≡ ok (v, rest)
  unfolding read_body read_full
  read_body-append v body rest e l =
      rw (l, split_at-append body rest, read_body, read_full) (rw (decodes v body e) refl)

  -- A frame that was written is read back, and nothing behind it is touched.
  read_frame-write_frame :
      (v : V) (bytes rest : List ℕ)
      → write_frame encode v ≡ ok bytes
      → read_frame decode (bytes ++ rest) ≡ ok (v, rest)
  unfolding write_frame put_uint32 read_frame read_body read_full
  read_frame-write_frame v bytes rest h = elim (Option-cases (encode v)) [
    | inl e ↦ absurd (ground arith)
    | inr (body, e) ↦ elim (Bool-cases (ltb max_frame_len (length body))) [
      | inl l ↦ absurd (ground arith)
      | inr l ↦
          let same = ok-injective (sym (write_frame-fits v body e l) ∙ h) in
          subst (λ bs. read_frame decode (bs ++ rest) ≡ ok (v, rest)) same
            (ap (λ n. read_body decode n (body ++ rest))
                (uint32-put_uint32 (length body) (ground arith))
              ∙ read_body-append v body rest e l)
    ]
  ]

  -- A stream of frames is read back whole, in order.
  pub read_frames-write_frames :
      (vs : List V) (bytes rest : List ℕ)
      → write_frames encode vs ≡ ok bytes
      → read_frames decode (length vs) (bytes ++ rest) ≡ ok (vs, rest)
  unfolding write_frames read_frames
  read_frames-write_frames [] bytes rest h = rw (← ok-injective h) refl
  read_frames-write_frames (v ∷ vs) bytes rest h =
      let (frame, f, h1) = >>=-eq-ok (write_frame encode v) _ h in
      let (others, g, h2) = >>=-eq-ok (write_frames encode vs) _ h1 in
      let tail = read_frames-write_frames vs others rest g in
      let first = read_frame-write_frame v frame (others ++ rest) f in
      subst (λ bs. read_frames decode (suc (length vs)) bs ≡ ok (v ∷ vs, rest))
        (sym (append_assoc frame others rest) ∙ ap (λ bs. bs ++ rest) (ok-injective h2))
        (rw (first, tail, read_frames) refl)
