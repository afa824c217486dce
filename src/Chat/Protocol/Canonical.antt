-- ===== src/Chat/Protocol/Canonical.antt =====
-- What `try_decode` accepts is only what `encode` builds.
use c_book.Prelude.{
  ℕ, zero, suc, ◌+◌, ◌-◌, ◌≤◌, ◌≡◌, refl, sym, ap, ap₂, ◌∙◌, List, [], ◌∷◌, ◌++◌, some, ok, length,
  take, drop, get_or, arith, length-take, take-append-drop,
}
use c_book.Bytes.{AreBytes, read_u32}
use c_book.Bytes.Laws.{le_bytes, of_le, le_bytes-of_le, read_u32_lem}
use c_book.Chat.Protocol.{max_payload, encode, Decoded, try_decode}
use c_book.Chat.Protocol.Frames.{frame, encode_lem}

-- The checks that an accepted accumulator has passed.
record Accepted (acc : List ℕ) (d : Decoded) : Type 0 where
  at_least : 2 ≤ read_u32 acc
  at_most : read_u32 acc ≤ max_payload + 2
  present : 4 + read_u32 acc ≤ length acc
  version : get_or acc 4 0 ≡ 1
  taken_type : d.out_type ≡ get_or acc 5 0
  taken_payload : d.out_payload ≡ take (read_u32 acc - 2) (drop 6 acc)
  left : d.acc ≡ drop (4 + read_u32 acc) acc

try_decode-Accepted : (acc : List ℕ) (d : Decoded) → try_decode acc ≡ ok (some d) → Accepted acc d
unfolding try_decode
try_decode-Accepted acc d e = ground arith

drop_more :
    (n : ℕ) (a b c d v t : ℕ) (l : List ℕ)
    → 2 ≤ n
    → drop (4 + n) (a ∷ b ∷ c ∷ d ∷ v ∷ t ∷ l) ≡ drop (n - 2) l
drop_more zero a b c d v t l h = absurd (omega arith)
drop_more (suc zero) a b c d v t l h = absurd (omega arith)
drop_more (suc (suc n)) a b c d v t l h =
    let e : 4 + suc (suc n) ≡ suc (suc (suc (suc (suc (suc n))))) = omega arith in
    let e' : suc (suc n) - 2 ≡ n = omega arith in rw (e, e')

frame_parts :
    (a b c d v t n : ℕ) (l rest : List ℕ)
    → AreBytes (a ∷ b ∷ c ∷ d ∷ [])
    → n ≡ of_le (a ∷ b ∷ c ∷ d ∷ [])
    → 2 ≤ n
    → n - 2 ≤ length l
    → v ≡ 1
    → rest ≡ drop (4 + n) (a ∷ b ∷ c ∷ d ∷ v ∷ t ∷ l)
    → a ∷ b ∷ c ∷ d ∷ v ∷ t ∷ l ≡ frame t (take (n - 2) l) ++ rest
frame_parts a b c d v t n l rest h e two room one left =
    rw (left, drop_more n a b c d v t l two, one)
      (sym (ap₂ (λ x y. x ++ 1 ∷ t ∷ y) header (take-append-drop (n - 2) l)))
  where
    size : 2 + length (take (n - 2) l) ≡ of_le (a ∷ b ∷ c ∷ d ∷ [])
    size = omega (arith, length-take (n - 2) l)

    header : le_bytes 4 (2 + length (take (n - 2) l)) ≡ a ∷ b ∷ c ∷ d ∷ []
    header = ap (le_bytes 4) size ∙ le_bytes-of_le (a ∷ b ∷ c ∷ d ∷ []) 4 h refl

-- Whatever `try_decode` accepts is the encoding of the message that it returns, followed by the
-- bytes that it leaves: the message encodes, to bytes that the accumulator begins with.
pub try_decode-canonical :
    (acc : List ℕ) (d : Decoded)
    → AreBytes acc
    → try_decode acc ≡ ok (some d)
    → (f : List ℕ) × (encode d.out_type d.out_payload ≡ ok f) × (acc ≡ f ++ d.acc)
try_decode-canonical (a ∷ b ∷ c ∷ d' ∷ v ∷ t ∷ l) d h e =
    let k = try_decode-Accepted (a ∷ b ∷ c ∷ d' ∷ v ∷ t ∷ l) d e in
    let n = read_u32 (a ∷ b ∷ c ∷ d' ∷ v ∷ t ∷ l) in
    let p = take (n - 2) l in
    let value : n ≡ of_le (a ∷ b ∷ c ∷ d' ∷ []) = read_u32_lem (a ∷ b ∷ c ∷ d' ∷ v ∷ t ∷ l) h in
    let room : n - 2 ≤ length l = omega (arith, k.present) in
    let small : length p ≤ max_payload = omega (arith, length-take (n - 2) l, k.at_most) in
    (
      frame t p,
      rw (k.taken_type, k.taken_payload) (encode_lem t p small),
      frame_parts a b c d' v t n l d.acc (h.0, (h.1.0, (h.1.1.0, (h.1.1.1.0, tt)))) value k.at_least
          room k.version k.left,
    )
try_decode-canonical [] d h e = absurd (omega (arith, (try_decode-Accepted [] d e).present))
try_decode-canonical (a ∷ []) d h e = absurd (
    omega (
      arith,
      (try_decode-Accepted (a ∷ []) d e).present,
      (try_decode-Accepted (a ∷ []) d e).at_least,
    ))
try_decode-canonical (a ∷ b ∷ []) d h e =
    absurd
      (omega (arith, (try_decode-Accepted _ d e).present, (try_decode-Accepted _ d e).at_least))
try_decode-canonical (a ∷ b ∷ c ∷ []) d h e =
    absurd
      (omega (arith, (try_decode-Accepted _ d e).present, (try_decode-Accepted _ d e).at_least))
try_decode-canonical (a ∷ b ∷ c ∷ d' ∷ []) d h e =
    absurd
      (omega (arith, (try_decode-Accepted _ d e).present, (try_decode-Accepted _ d e).at_least))
try_decode-canonical (a ∷ b ∷ c ∷ d' ∷ v ∷ []) d h e =
    absurd
      (omega (arith, (try_decode-Accepted _ d e).present, (try_decode-Accepted _ d e).at_least))
