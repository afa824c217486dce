-- ===== src/Bytes/Laws.antt =====
-- The loops of Bytes.antt against a definition by digits, and what follows for each width.
use native.Mathlib.Nat.{div-div-eq-div-mul, pow-suc, mod-eq_of_lt}
use native.Mathlib.Numerals.{towards_suc}
use c_book.Prelude.{
  ℕ, zero, suc, ◌+◌, ◌*◌, ◌/◌, ◌%◌, ◌^◌, ◌<◌, ◌≡◌, refl, sym, ap, List, [], ◌∷◌, ◌++◌, append_assoc,
  append-nil, get_or, length, length-append, take, drop, arith, ◌∙◌, ◌≤◌, take-append, All-append,
  ap₂,
}
use c_book.Prelude.Bits.{bit_or_shifted}
use c_book.Bytes.{
  IsByte, AreBytes, write_loop, read_loop, write_u16, write_u32, write_u64, write_string, read_u16,
  read_u32, read_u64, read_string,
}

-- The `n` low digits of `v` in base 256, the lowest first.
abbrev pub le_bytes : ℕ → ℕ → List ℕ
le_bytes zero v = []
le_bytes (suc n) v = (v % 256) ∷ le_bytes n (v / 256)

abbrev pub of_le : List ℕ → ℕ
of_le [] = 0
of_le (b ∷ bs) = b + 256 * of_le bs

pub length-le_bytes : (n v : ℕ) → length (le_bytes n v) ≡ n
length-le_bytes zero v = refl
length-le_bytes (suc n) v = ap suc (length-le_bytes n (v / 256))

pub le_bytes-AreBytes : (n v : ℕ) → AreBytes (le_bytes n v)
le_bytes-AreBytes zero v = tt
le_bytes-AreBytes (suc n) v = (omega arith, le_bytes-AreBytes n (v / 256))

-- Shifting by one more byte.
two_pow_next : (i : ℕ) → 2 ^ ((i + 1) * 8) ≡ 2 ^ (i * 8) * 256
two_pow_next i =
    let e : (i + 1) * 8 ≡ i * 8 + 8 = omega arith in rw e (simp towards_suc (omega arith))

pub shift_next : (v i : ℕ) → v / 2 ^ ((i + 1) * 8) ≡ v / 2 ^ (i * 8) / 256
shift_next v i = rw (two_pow_next i) (sym (div-div-eq-div-mul v (2 ^ (i * 8)) 256))

write_loop_lem :
    (n i v : ℕ) (out : List ℕ) → write_loop n i v out ≡ out ++ le_bytes n (v / 2 ^ (i * 8))
unfolding write_loop
write_loop_lem zero i v out = sym (append-nil out)
write_loop_lem (suc n) i v out =
    write_loop_lem n (i + 1) v (out ++ (v / 2 ^ (i * 8) % 256) ∷ [])
    ∙ append_assoc out ((v / 2 ^ (i * 8) % 256) ∷ []) (le_bytes n (v / 2 ^ ((i + 1) * 8)))
    ∙ ap (λ t. out ++ (v / 2 ^ (i * 8) % 256) ∷ le_bytes n t) (shift_next v i)

pub div-one : (v : ℕ) → v / 2 ^ (0 * 8) ≡ v
div-one v = omega arith

pub write_u16_lem : (out : List ℕ) (v : ℕ) → write_u16 out v ≡ out ++ le_bytes 2 v
unfolding write_u16
write_u16_lem out v = append_assoc out ((v % 256) ∷ []) ((v / 2 ^ 8 % 256) ∷ [])

pub write_u32_lem : (out : List ℕ) (v : ℕ) → write_u32 out v ≡ out ++ le_bytes 4 v
unfolding write_u32
write_u32_lem out v = write_loop_lem 4 0 v out ∙ ap (λ t. out ++ le_bytes 4 t) (div-one v)

pub write_u64_lem : (out : List ℕ) (v : ℕ) → write_u64 out v ≡ out ++ le_bytes 8 v
unfolding write_u64
write_u64_lem out v = write_loop_lem 8 0 v out ∙ ap (λ t. out ++ le_bytes 8 t) (div-one v)

-- `n` bytes from `p` on, read as digits.
abbrev pub prefix : ℕ → List ℕ → List ℕ
prefix zero p = []
prefix (suc n) p = get_or p 0 0 ∷ prefix n (drop 1 p)

get_or-drop : (i : ℕ) (p : List ℕ) → get_or (drop i p) 0 0 ≡ get_or p i 0
get_or-drop zero p = refl
get_or-drop (suc i) [] = refl
get_or-drop (suc i) (b ∷ p) = get_or-drop i p

drop-drop-one : (i : ℕ) (p : List ℕ) → drop 1 (drop i p) ≡ drop (i + 1) p
drop-drop-one zero p = refl
drop-drop-one (suc i) [] = let e : suc i + 1 ≡ suc (i + 1) = omega arith in rw e
drop-drop-one (suc i) (b ∷ p) =
    let e : suc i + 1 ≡ suc (i + 1) = omega arith in rw e (drop-drop-one i p)

get_or-IsByte : (i : ℕ) (p : List ℕ) → AreBytes p → get_or p i 0 < 256
get_or-IsByte i [] h = omega arith
get_or-IsByte zero (b ∷ p) h = h.0
get_or-IsByte (suc i) (b ∷ p) h = get_or-IsByte i p h.1

room : (b v P : ℕ) → b < 256 → v < P → v + b * P < P * 256
room b v P hb hv = grind arith

read_loop_lem :
    (n i : ℕ) (p : List ℕ) (v : ℕ)
    → AreBytes p
    → v < 2 ^ (i * 8)
    → read_loop n i p v ≡ v + 2 ^ (i * 8) * of_le (prefix n (drop i p))
unfolding read_loop
read_loop_lem zero i p v h fits = omega arith
read_loop_lem (suc n) i p v h fits =
    let b = get_or p i 0 in
    rw (bit_or_shifted (i * 8) v b fits) (
      read_loop_lem n (i + 1) p (v + b * 2 ^ (i * 8)) h
        (rw (two_pow_next i) (room b v (2 ^ (i * 8)) (get_or-IsByte i p h) fits))
      ∙ rw (two_pow_next i, get_or-drop i p, drop-drop-one i p) (omega arith))

pub read_u16_lem : (p : List ℕ) → AreBytes p → read_u16 p ≡ of_le (prefix 2 p)
unfolding read_u16
read_u16_lem p h =
    rw (bit_or_shifted 8 (get_or p 0 0) (get_or p 1 0) (get_or-IsByte 0 p h))
      (omega (arith, get_or-drop 1 p))

pub read_u32_lem : (p : List ℕ) → AreBytes p → read_u32 p ≡ of_le (prefix 4 p)
unfolding read_u32
read_u32_lem p h = read_loop_lem 4 0 p 0 h (omega arith) ∙ omega arith

pub read_u64_lem : (p : List ℕ) → AreBytes p → read_u64 p ≡ of_le (prefix 8 p)
unfolding read_u64
read_u64_lem p h = read_loop_lem 8 0 p 0 h (omega arith) ∙ omega arith

pub prefix-append : (xs rest : List ℕ) (n : ℕ) → length xs ≡ n → prefix n (xs ++ rest) ≡ xs
prefix-append [] rest zero e = refl
prefix-append [] rest (suc n) e = absurd (omega arith)
prefix-append (x ∷ xs) rest zero e = absurd (omega arith)
prefix-append (x ∷ xs) rest (suc n) e = ap (λ l. x ∷ l) (prefix-append xs rest n (omega arith))

pub prefix-take : (n : ℕ) (p : List ℕ) → n ≤ length p → prefix n p ≡ take n p
prefix-take zero p h = refl
prefix-take (suc n) [] h = absurd (omega arith)
prefix-take (suc n) (x ∷ p) h = ap (λ l. x ∷ l) (prefix-take n p (omega arith))

-- Digits of a number that fits, and the number of bytes.
pub of_le-le_bytes : (n v : ℕ) → v < 256 ^ n → of_le (le_bytes n v) ≡ v
of_le-le_bytes zero v h = omega arith
of_le-le_bytes (suc n) v h =
    omega (arith, of_le-le_bytes n (v / 256) (omega (arith, pow-suc 256 n)))

pub le_bytes-of_le :
    (bs : List ℕ) (n : ℕ) → AreBytes bs → length bs ≡ n → le_bytes n (of_le bs) ≡ bs
le_bytes-of_le [] zero h e = refl
le_bytes-of_le [] (suc n) h e = absurd (omega arith)
le_bytes-of_le (b ∷ bs) zero h e = absurd (omega arith)
le_bytes-of_le (b ∷ bs) (suc n) h e =
    let low : (b + 256 * of_le bs) % 256 ≡ b = omega arith in
    let high : (b + 256 * of_le bs) / 256 ≡ of_le bs = omega arith in
    rw (low, high) (ap (λ l. b ∷ l) (le_bytes-of_le bs n h.1 (omega arith)))

module _ (rest : List ℕ) (bytes : AreBytes rest) where
  read_le_bytes : (n v : ℕ) → v < 256 ^ n → of_le (prefix n (le_bytes n v ++ rest)) ≡ v
  read_le_bytes n v h =
      rw (prefix-append (le_bytes n v) rest n (length-le_bytes n v)) (of_le-le_bytes n v h)

  all_bytes : (n v : ℕ) → AreBytes (le_bytes n v ++ rest)
  all_bytes n v = All-append IsByte (le_bytes n v) rest (le_bytes-AreBytes n v) bytes

  pub read_u16-le_bytes : (v : ℕ) → v < 2 ^ 16 → read_u16 (le_bytes 2 v ++ rest) ≡ v
  read_u16-le_bytes v h = read_u16_lem _ (all_bytes 2 v) ∙ read_le_bytes 2 v h

  pub read_u32-le_bytes : (v : ℕ) → v < 2 ^ 32 → read_u32 (le_bytes 4 v ++ rest) ≡ v
  read_u32-le_bytes v h = read_u32_lem _ (all_bytes 4 v) ∙ read_le_bytes 4 v h

  pub read_u64-le_bytes : (v : ℕ) → v < 2 ^ 64 → read_u64 (le_bytes 8 v ++ rest) ≡ v
  read_u64-le_bytes v h = read_u64_lem _ (all_bytes 8 v) ∙ read_le_bytes 8 v h

-- A number that was written is read back, whatever follows it, at each of the three widths.
pub read-write_lem :
    (v16 v32 v64 : ℕ) (rest : List ℕ)
    → v16 < 2 ^ 16
    → v32 < 2 ^ 32
    → v64 < 2 ^ 64
    → AreBytes rest
    → (read_u16 (write_u16 [] v16 ++ rest) ≡ v16)
      × (read_u32 (write_u32 [] v32 ++ rest) ≡ v32)
      × (read_u64 (write_u64 [] v64 ++ rest) ≡ v64)
read-write_lem a b c rest ha hb hc h = (
  rw (write_u16_lem [] a) (read_u16-le_bytes rest h a ha),
  rw (write_u32_lem [] b) (read_u32-le_bytes rest h b hb),
  rw (write_u64_lem [] c) (read_u64-le_bytes rest h c hc),
)

pub write_string_lem :
    (out s : List ℕ) → write_string out s ≡ (out ++ le_bytes 4 (length s % 2 ^ 32)) ++ s
unfolding write_string
write_string_lem out s = ap (λ t. t ++ s) (write_u32_lem out (length s % 2 ^ 32))

read_string_lem : (p : List ℕ) (n : ℕ) → read_u32 p ≡ n → read_string p ≡ (take n (drop 4 p), 4 + n)
unfolding read_string
read_string_lem p n e = ap (λ (t : ℕ). (take t (drop 4 p), 4 + t)) e

-- A string shorter than 2 ^ 32 bytes is read back, and `consumed` is what it took.
pub read_string-write_string :
    (s rest : List ℕ)
    → length s < 2 ^ 32
    → AreBytes s
    → AreBytes rest
    → read_string (write_string [] s ++ rest) ≡ (s, length (write_string [] s))
read_string-write_string s rest fits hs hr =
    rw (write_string_lem [] s, mod-eq_of_lt fits, length-append (le_bytes 4 (length s)) s)
      (rw (append_assoc (le_bytes 4 (length s)) s rest) (
        read_string_lem _ _
          (read_u32-le_bytes (s ++ rest) (All-append IsByte s rest hs hr) (length s) fits)
        ∙ ap₂ {A = List ℕ} {B = ℕ} {C = List ℕ × ℕ} (λ l n. (l, n))
            (take-append (length s) s rest refl) refl))

-- Two strings of bytes of one length with the same value are the same.
pub of_le-injective :
    (xs ys : List ℕ)
    → AreBytes xs
    → AreBytes ys
    → length xs ≡ length ys
    → of_le xs ≡ of_le ys
    → xs ≡ ys
of_le-injective xs ys hx hy e v =
    sym (le_bytes-of_le xs (length xs) hx refl)
    ∙ ap (le_bytes (length xs)) v
    ∙ le_bytes-of_le ys (length xs) hy (sym e)

pub read_u32-injective :
    (xs ys : List ℕ)
    → AreBytes xs
    → AreBytes ys
    → length xs ≡ 4
    → length ys ≡ 4
    → read_u32 xs ≡ read_u32 ys
    → xs ≡ ys
read_u32-injective xs ys hx hy ex ey e = of_le-injective xs ys hx hy (ex ∙ sym ey) (
    ap of_le (sym (whole xs ex))
    ∙ sym (read_u32_lem xs hx)
    ∙ e
    ∙ read_u32_lem ys hy
    ∙ ap of_le (whole ys ey))
  where
    whole : (l : List ℕ) → length l ≡ 4 → prefix 4 l ≡ l
    whole l h = ap (prefix 4) (sym (append-nil l)) ∙ prefix-append l [] 4 h
