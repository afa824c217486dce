-- ===== src/Chat/Protocol/Frames.antt =====
-- Frames as byte strings: what `encode` builds, and what `try_decode` makes of a frame, of a piece
-- of one and of anything else.
use c_book.Prelude.{
  ℕ, ◌+◌, ◌-◌, ◌%◌, ◌^◌, ◌<◌, ◌≤◌, ◌≡◌, refl, ap, ◌∙◌, true, List, [], ◌∷◌, ◌++◌, none, some, ok,
  throw, length, take, drop, get_or, ltb, arith, le→ltb, All-append, Bool-cases, inl, inr,
  length-append, take-append, drop-append,
}
use c_book.Bytes.{IsByte, AreBytes, read_u32}
use c_book.Bytes.Laws.{
  le_bytes, write_u32_lem, read_u32-le_bytes, of_le, of_le-le_bytes, prefix, read_u32_lem,
}
use c_book.Chat.Protocol.{payload_too_large, max_payload, encode, try_decode}

-- The layout of protocol.h: length, version, type, payload.
abbrev pub frame : ℕ → List ℕ → List ℕ
frame type payload = le_bytes 4 (2 + length payload) ++ 1 ∷ type ∷ payload

pub encode_lem : (t : ℕ) (p : List ℕ) → length p ≤ max_payload → encode t p ≡ ok (frame t p)
unfolding encode
encode_lem t p h =
    rw (le→ltb max_payload (length p) h, write_u32_lem [] ((2 + length p) % 2 ^ 32), wraps) refl
  where
    wraps : (2 + length p) % 2 ^ 32 ≡ 2 + length p
    wraps = omega arith

encode-large :
    (t : ℕ) (p : List ℕ) → ltb max_payload (length p) ≡ true → encode t p ≡ throw payload_too_large
unfolding encode
encode-large t p large = rw large

pub encode-ok :
    (t : ℕ) (p : List ℕ) {f : List ℕ}
    → encode t p ≡ ok f
    → (length p ≤ max_payload) × (f ≡ frame t p)
encode-ok t p e = elim (Bool-cases (ltb max_payload (length p))) [
  | inl large ↦ absurd (refused large)
  | inr small ↦ let h : length p ≤ max_payload = ground arith in (h, cc (encode_lem t p h))
]
  where
    refused : ltb max_payload (length p) ≡ true → ⊥
    refused large = cc (encode-large t p large)

decode_step :
    (acc : List ℕ) (len : ℕ)
    → read_u32 acc ≡ len
    → 4 + len ≤ length acc
    → 2 ≤ len
    → len ≤ max_payload + 2
    → get_or acc 4 0 ≡ 1
    → try_decode acc
      ≡ ok (
          some (record {
            out_type = get_or acc 5 0;
            out_payload = take (len - 2) (drop 6 acc);
            acc = drop (4 + len) acc;
          }))
unfolding try_decode
decode_step acc len e h lo hi v = rw (e, v) (ground arith)

-- A whole frame is taken off the front, whatever follows it.
pub try_decode-frame :
    (t : ℕ) (p rest : List ℕ)
    → length p ≤ max_payload
    → t < 256
    → AreBytes p
    → AreBytes rest
    → try_decode (frame t p ++ rest)
      ≡ ok (some (record { out_type = t; out_payload = p; acc = rest }))
try_decode-frame t p rest small ht hp hr =
    decode_step (frame t p ++ rest) len
      (read_u32-le_bytes (1 ∷ t ∷ (p ++ rest)) bytes len (omega arith))
      (omega (arith, length-append p rest)) (omega arith) (omega arith) refl
    ∙ rw (cut_payload, drop-append (4 + len) (frame t p) rest (omega arith))
  where
    len : ℕ
    len = 2 + length p

    bytes : AreBytes (1 ∷ t ∷ (p ++ rest))
    bytes = (omega arith, (ht, All-append IsByte p rest hp hr))

    cut_payload : take (len - 2) (p ++ rest) ≡ p
    cut_payload = take-append (len - 2) p rest (omega arith)

frame_prefix : (acc rest : List ℕ) → 4 ≤ length acc → prefix 4 acc ≡ prefix 4 (acc ++ rest)
frame_prefix (a ∷ b ∷ c ∷ d ∷ acc) rest h = refl
frame_prefix (a ∷ b ∷ c ∷ []) rest h = absurd (omega arith)
frame_prefix (a ∷ b ∷ []) rest h = absurd (omega arith)
frame_prefix (a ∷ []) rest h = absurd (omega arith)
frame_prefix [] rest h = absurd (omega arith)

frame-length :
    (t : ℕ) (p acc rest : List ℕ)
    → length p ≤ max_payload
    → AreBytes acc
    → acc ++ rest ≡ frame t p
    → 4 ≤ length acc
    → read_u32 acc ≡ 2 + length p
frame-length t p acc rest small ha e h =
    read_u32_lem acc ha
    ∙ ap of_le (frame_prefix acc rest h ∙ ap (prefix 4) e)
    ∙ of_le-le_bytes 4 (2 + length p) (omega arith)

-- A proper piece of a frame is not decoded and raises nothing: the accumulator waits.
pub try_decode-piece :
    (t : ℕ) (p acc rest : List ℕ)
    → length p ≤ max_payload
    → AreBytes acc
    → acc ++ rest ≡ frame t p
    → length acc < length (frame t p)
    → try_decode acc ≡ ok none
unfolding try_decode
try_decode-piece t p acc rest small ha e short = elim (Bool-cases (ltb (length acc) 4)) [
  | inl few ↦ rw few
  | inr many ↦ rw (many, frame-length t p acc rest small ha e (ground arith)) (ground arith)
]
