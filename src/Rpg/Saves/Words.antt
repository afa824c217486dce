-- ===== src/Rpg/Saves/Words.antt =====
-- The streams of demo-rpg/src/save_manager.cpp on what they are made to read: words, numbers, lines.
use c_book.Prelude.{
  ℕ, zero, suc, ◌+◌, ◌-◌, ◌*◌, ◌/◌, ◌%◌, ◌<◌, ◌≡◌, refl, ap, ◌∙◌, sym, Bool, true, false, not, List,
  [], ◌∷◌, ◌++◌, All, All-append, All-map, inl, inr, Bool-cases, arith, ltb, le→ltb, ◌==◌,
  if◌then◌else◌,
}
use c_book.Prelude.Int.{ℤ, pos, negsuc, sub_ℕ}
use c_book.Rpg.Streams.{
  stream, is_white, is_decimal, skip_spaces, span_of, next_word, take_int, take_digits, number_of,
  int_of, next_int, lines, digits, decimal_value, print_int,
}

-- A byte that is no white space.
abbrev pub IsInk : ℕ → Type 0
IsInk c = is_white c ≡ false

-- A word: it is not empty, and has no white space.
abbrev pub IsWord : List ℕ → Type 0
IsWord [] = 0 < 0
IsWord (c ∷ cs) = IsInk c × All IsInk cs

-- A word ends here.
abbrev pub IsStop : List ℕ → Type 0
IsStop [] = Unit
IsStop (c ∷ cs) = is_white c ≡ true

abbrev pub IsInt32 : ℤ → Type 0
IsInt32 (pos n) = n < 2147483648
IsInt32 (negsuc n) = n < 2147483648

pub span_of-append :
    (p : ℕ → Bool) (w tail : List ℕ)
    → All (λ c. p c ≡ true) w
    → (span_of p tail ≡ ([], tail))
    → span_of p (w ++ tail) ≡ (w, tail)
unfolding span_of
span_of-append p [] tail h e = e
span_of-append p (c ∷ cs) tail h e = rw (h.0, span_of-append p cs tail h.1 e) refl

stop-ink : (tail : List ℕ) → IsStop tail → span_of (λ b. not (is_white b)) tail ≡ ([], tail)
unfolding span_of
stop-ink [] s = refl
stop-ink (c ∷ cs) s = rw s refl

stop-digit : (tail : List ℕ) → IsStop tail → span_of is_decimal tail ≡ ([], tail)
unfolding span_of
stop-digit [] s = refl
stop-digit (c ∷ cs) s = ground arith

pub next_word-word :
    (old w tail : List ℕ)
    → IsWord w
    → IsStop tail
    → next_word old (stream (w ++ tail)) ≡ (w, stream tail)
unfolding next_word skip_spaces
next_word-word old [] tail h s = absurd (omega arith)
next_word-word old (c ∷ cs) tail h s = rw h.0 (
    ap (λ o. (o.0, stream o.1))
      (span_of-append (λ b. not (is_white b)) (c ∷ cs) tail
        (rw h.0 refl, All-map (λ x e. rw e refl) cs h.1) (stop-ink tail s)))

pub digits-digit : (f n : ℕ) → All (λ c. is_decimal c ≡ true) (digits f n)
unfolding digits
digits-digit zero n = tt
digits-digit (suc f) n = elim (Bool-cases (ltb n 10)) [
  | inl small ↦ rw small (ground arith, tt)
  | inr large ↦ rw large (All-append _ (digits f (n / 10)) _ (digits-digit f (n / 10)) (last n, tt))
]
  where
    last : (m : ℕ) → is_decimal (48 + m % 10) ≡ true
    last m = ground arith

decimal_value-append :
    (acc : ℕ) (xs ys : List ℕ)
    → decimal_value acc (xs ++ ys) ≡ decimal_value (decimal_value acc xs) ys
unfolding decimal_value
decimal_value-append acc [] ys = refl
decimal_value-append acc (x ∷ xs) ys = decimal_value-append (acc * 10 + (x - 48)) xs ys

-- Ten to the power, by multiplication.
abbrev ten_to : ℕ → ℕ
ten_to zero = 1
ten_to (suc f) = 10 * ten_to f

decimal_value-digits : (f n : ℕ) → n < ten_to f → decimal_value 0 (digits f n) ≡ n
unfolding decimal_value digits
decimal_value-digits zero n h = omega arith
decimal_value-digits (suc f) n h = elim (Bool-cases (ltb n 10)) [
  | inl small ↦ rw small (omega arith)
  | inr large ↦ rw large (
      decimal_value-append 0 (digits f (n / 10)) ((48 + n % 10) ∷ [])
      ∙ ap (λ (m : ℕ). m * 10 + (48 + n % 10 - 48)) (decimal_value-digits f (n / 10) (omega arith))
      ∙ omega arith)
]

digits-some : (f n : ℕ) → (d : ℕ) × (ds : List ℕ) × (digits (suc f) n ≡ d ∷ ds)
unfolding digits
digits-some f n = elim (Bool-cases (ltb n 10)) [
  | inl small ↦ rw small (48 + n, [], refl)
  | inr large ↦ rw large (some_first (digits f (n / 10)) (48 + n % 10))
]
  where
    some_first : (xs : List ℕ) (y : ℕ) → (d : ℕ) × (ds : List ℕ) × (xs ++ y ∷ [] ≡ d ∷ ds)
    some_first [] y = (y, [], refl)
    some_first (x ∷ xs) y = (x, xs ++ y ∷ [], refl)

-- The numbers that an `int` has room for, by sign.
abbrev room : Bool → ℕ
room true = 2147483649
room false = 2147483648

int_of-room :
    (b : Bool) (n : ℕ) (tail : List ℕ)
    → n < room b
    → int_of b n tail ≡ (if b then sub_ℕ 0 n else pos n, stream tail)
unfolding int_of
int_of-room true n tail h = rw (le→ltb 2147483648 n (omega arith)) refl
int_of-room false n tail h = rw (le→ltb 2147483647 n (omega arith)) refl

room-ten : (b : Bool) (n : ℕ) → n < room b → n < ten_to 10
room-ten true n h = omega arith
room-ten false n h = omega arith

take_digits-digits :
    (negative : Bool) (n : ℕ) (tail : List ℕ)
    → n < room negative
    → IsStop tail
    → take_digits negative (digits 10 n ++ tail)
      ≡ (if negative then sub_ℕ 0 n else pos n, stream tail)
unfolding take_digits number_of int_of
take_digits-digits negative n tail small stop =
    let (d, ds, e) = digits-some 9 n in
    ap (number_of negative)
      (span_of-append is_decimal (digits 10 n) tail (digits-digit 10 n) (stop-digit tail stop))
    ∙ ap (λ m. number_of negative (m, tail)) e
    ∙ ap (λ m. int_of negative m tail)
        (ap (decimal_value 0) (sym e) ∙ decimal_value-digits 10 n (room-ten negative n small))
    ∙ int_of-room negative n tail small

take_int-digits :
    (old : ℤ) (ds tail : List ℕ)
    → All (λ c. is_decimal c ≡ true) ds
    → (d : ℕ) × (es : List ℕ) × (ds ≡ d ∷ es)
    → take_int old (skip_spaces (ds ++ tail)) ≡ take_digits false (ds ++ tail)
unfolding take_int skip_spaces
take_int-digits old [] tail h (d, es, e) = absurd cc
take_int-digits old (c ∷ cs) tail h some = rw (ink c h.0) (rw (minus c h.0) (rw (plus c h.0) refl))
  where
    ink : (c : ℕ) → is_decimal c ≡ true → is_white c ≡ false
    ink c h = ground arith

    minus : (c : ℕ) → is_decimal c ≡ true → (c == 45) ≡ false
    minus c h = ground arith

    plus : (c : ℕ) → is_decimal c ≡ true → (c == 43) ≡ false
    plus c h = ground arith

-- A number as it is printed, after a space or at once.
take_int-print_int :
    (old n : ℤ) (tail : List ℕ)
    → IsInt32 n
    → IsStop tail
    → take_int old (skip_spaces (print_int n ++ tail)) ≡ (n, stream tail)
unfolding take_int skip_spaces print_int
take_int-print_int old (pos n) tail small stop =
    take_int-digits old (digits 10 n) tail (digits-digit 10 n) (digits-some 9 n)
    ∙ take_digits-digits false n tail small stop
take_int-print_int old (negsuc n) tail small stop =
    take_digits-digits true (suc n) tail (omega arith) stop ∙ ap (λ o. (o, stream tail)) (below n)
  where
    below : (m : ℕ) → sub_ℕ 0 (suc m) ≡ negsuc m
    below m = ground arith

pub next_int-print_int :
    (old n : ℤ) (tail : List ℕ)
    → IsInt32 n
    → IsStop tail
    → next_int old (stream (32 ∷ print_int n ++ tail)) ≡ (n, stream tail)
unfolding next_int skip_spaces
next_int-print_int old n tail small stop = take_int-print_int old n tail small stop

pub lines-save_line :
    (l rest : List ℕ)
    → All (λ c. (c == 10) ≡ false) l
    → lines ((l ++ 10 ∷ []) ++ rest) ≡ l ∷ lines rest
unfolding lines
lines-save_line [] rest h = refl
lines-save_line (c ∷ cs) rest h = rw (h.0, lines-save_line cs rest h.1) refl
