-- ===== src/Rpg/Saves/Sums.antt =====
-- The last line of a save of demo-rpg/src/save_manager.cpp: where `read` finds it, and the sum in it.
use c_book.Prelude.{
  ℕ, Bool, drop, zero, suc, ◌+◌, ◌*◌, ◌/◌, ◌%◌, ◌^◌, ◌<◌, ◌≡◌, ◌⊎◌, refl, ap, ◌∙◌, sym, true, false,
  not, ◌&&◌, ◌||◌, List, [], ◌∷◌, ◌++◌, append_assoc, append-nil, length, length-append, get_or,
  none, some, All, All-append, All-map, inl, inr, codes, arith, ◌==◌, if◌then◌else◌, Outcome, ok,
  throw, ◌>>=◌,
}
use c_book.Rpg.Streams.{span_of, next_word}
use c_book.Rpg.Saves.Writing.{
  SaveError, invalid_number, bad_checksum_line, checksum_mismatch, checksum, checksum_from,
  hex_digit, hex_digits, to_hex, save_line,
}
use c_book.Rpg.Saves.Reading.{
  starts_with, split_checksum, is_hex, hex_value_of, hex_value, drop_prefix, stoul_digits, stoul_16,
  check_sum,
}
use c_book.Rpg.Saves.Words.{IsInk, IsWord, span_of-append}
use c_book.Rpg.Saves.Items.{next_word-space}
use c_book.Rpg.Saves.Lines.{IsLine}

pub checksum_from-lt : (sum : ℕ) (text : List ℕ) → sum < 2 ^ 32 → checksum_from sum text < 2 ^ 32
unfolding checksum_from
checksum_from-lt sum [] h = h
checksum_from-lt sum (c ∷ cs) h = checksum_from-lt ((sum * 31 + c) % 2 ^ 32) cs (omega arith)

-- One digit in base 16, as `std::hex` prints it.
hex_digit-is_hex : (d : ℕ) → d < 16 → is_hex (hex_digit d) ≡ true
hex_digit-is_hex d h = ground arith

hex_value_of-hex_digit : (d : ℕ) → d < 16 → hex_value_of (hex_digit d) ≡ d
hex_value_of-hex_digit d h = ground arith

hex_digits-hex : (n v : ℕ) → All (λ c. is_hex c ≡ true) (hex_digits n v)
unfolding hex_digits
hex_digits-hex zero v = tt
hex_digits-hex (suc n) v =
    All-append _ (hex_digits n (v / 16)) _ (hex_digits-hex n (v / 16))
      (hex_digit-is_hex (v % 16) (omega arith), tt)

length-hex_digits : (n v : ℕ) → length (hex_digits n v) ≡ n
unfolding hex_digits
length-hex_digits zero v = refl
length-hex_digits (suc n) v =
    length-append (hex_digits n (v / 16)) _ ∙ omega (arith, length-hex_digits n (v / 16))

hex_value-append :
    (acc : ℕ) (xs ys : List ℕ) → hex_value acc (xs ++ ys) ≡ hex_value (hex_value acc xs) ys
unfolding hex_value
hex_value-append acc [] ys = refl
hex_value-append acc (x ∷ xs) ys = hex_value-append (acc * 16 + hex_value_of x) xs ys

abbrev sixteen_to : ℕ → ℕ
sixteen_to zero = 1
sixteen_to (suc n) = 16 * sixteen_to n

hex_value-hex_digits : (n v : ℕ) → v < sixteen_to n → hex_value 0 (hex_digits n v) ≡ v
unfolding hex_value hex_digits
hex_value-hex_digits zero v h = omega arith
hex_value-hex_digits (suc n) v h =
    hex_value-append 0 (hex_digits n (v / 16)) (hex_digit (v % 16) ∷ [])
    ∙ ap (λ (m : ℕ). m * 16 + hex_value_of (hex_digit (v % 16)))
        (hex_value-hex_digits n (v / 16) (omega arith))
    ∙ ap (λ (m : ℕ). v / 16 * 16 + m) (hex_value_of-hex_digit (v % 16) (omega arith))
    ∙ omega arith

not_minus : (c : ℕ) → is_hex c ≡ true → (c == 45) ≡ false
not_minus c h = ground arith

not_plus : (c : ℕ) → is_hex c ≡ true → (c == 43) ≡ false
not_plus c h = ground arith

not_cross : (c : ℕ) → is_hex c ≡ true → (c == 120 || c == 88) ≡ false
not_cross c h = ground arith

drop_prefix-hexes :
    (a b : ℕ) (cs : List ℕ) → is_hex b ≡ true → drop_prefix (a ∷ b ∷ cs) ≡ a ∷ b ∷ cs
unfolding drop_prefix
drop_prefix-hexes a b cs h =
    ap
      (λ x.
        if a == 48 && (x && is_hex (get_or (a ∷ b ∷ cs) 2 0))
        then drop 2 (a ∷ b ∷ cs)
        else a ∷ b ∷ cs)
      (not_cross b h)
    ∙ never (a == 48)
  where
    never : (x : Bool) → (if x && false then drop 2 (a ∷ b ∷ cs) else a ∷ b ∷ cs) ≡ a ∷ b ∷ cs
    never true = refl
    never false = refl

span_of-all : (p : ℕ → Bool) (w : List ℕ) → All (λ c. p c ≡ true) w → span_of p w ≡ (w, [])
unfolding span_of
span_of-all p w h = ap (span_of p) (sym (append-nil w)) ∙ span_of-append p w [] h refl

stoul_16-hexes :
    (hexes : List ℕ)
    → All (λ c. is_hex c ≡ true) hexes
    → length hexes ≡ 8
    → stoul_16 hexes ≡ ok (hex_value 0 hexes)
unfolding stoul_16 stoul_digits
stoul_16-hexes [] h e = absurd (omega arith)
stoul_16-hexes (a ∷ []) h e = absurd (omega arith)
stoul_16-hexes (a ∷ b ∷ cs) h e = rw (not_minus a h.0) (
    rw (not_plus a h.0) (
      ap (λ o. elim o.0 [ [] ↦ throw invalid_number | c ∷ ds ↦ ok (hex_value 0 o.0) ])
        (ap (span_of is_hex) (drop_prefix-hexes a b cs h.1.0) ∙ span_of-all is_hex (a ∷ b ∷ cs) h)))

-- No sum line begins in these bytes.
split_checksum-none : (l : List ℕ) → IsLine l → split_checksum (l ++ 10 ∷ []) ≡ none
unfolding split_checksum starts_with
split_checksum-none [] h = refl
split_checksum-none (c ∷ cs) h = rw (split_checksum-none cs h.1) (rw (no_start c h.0) refl)
  where
    no_start : (c : ℕ) → (c == 10) ≡ false → (10 == c) ≡ false
    no_start c h = ground arith

split_checksum-append :
    (xs ys body rest : List ℕ)
    → split_checksum ys ≡ some (body, rest)
    → split_checksum (xs ++ ys) ≡ some (xs ++ body, rest)
unfolding split_checksum
split_checksum-append [] ys body rest e = e
split_checksum-append (x ∷ xs) ys body rest e = rw (split_checksum-append xs ys body rest e) refl

-- Texts that are made of whole lines.
abbrev pub IsWhole : List ℕ → Type 0
IsWhole text = (text ≡ []) ⊎ ((l : List ℕ) × (text ≡ l ++ 10 ∷ []))

pub IsWhole-append : (xs ys : List ℕ) → IsWhole xs → IsWhole ys → IsWhole (xs ++ ys)
IsWhole-append xs ys a (inr (l, e)) =
    inr (xs ++ l, ap (λ t. xs ++ t) e ∙ sym (append_assoc xs l (10 ∷ [])))
IsWhole-append xs ys (inl a) (inl b) = inl (ap (λ t. t ++ ys) a ∙ b)
IsWhole-append xs ys (inr (l, a)) (inl b) = inr (l, ap (λ t. xs ++ t) b ∙ append-nil xs ∙ a)

hex-IsInk : (c : ℕ) → is_hex c ≡ true → IsInk c
hex-IsInk c h = ground arith

hex-IsWord : (w : List ℕ) → All (λ c. is_hex c ≡ true) w → length w ≡ 8 → IsWord w
hex-IsWord [] h e = absurd (omega arith)
hex-IsWord (c ∷ cs) h e = (hex-IsInk c h.0, All-map hex-IsInk cs h.1)

hex-IsLine : (w : List ℕ) → All (λ c. is_hex c ≡ true) w → IsLine w
hex-IsLine w h = All-map mark w h
  where
    mark : (c : ℕ) → is_hex c ≡ true → (c == 10) ≡ false
    mark c h = ground arith

-- The end of `check_sum`, on the word that was read.
compared : List ℕ → List ℕ → Outcome SaveError Unit
compared body chk_hex =
    if not (length chk_hex == 8)
    then throw bad_checksum_line
    else stoul_16 chk_hex >>= λ expected.
        if expected % 2 ^ 32 == checksum body then ok tt else throw checksum_mismatch

compared-hexes :
    (body hexes : List ℕ)
    → All (λ c. is_hex c ≡ true) hexes
    → length hexes ≡ 8
    → compared body hexes
      ≡ (if hex_value 0 hexes % 2 ^ 32 == checksum body then ok tt else throw checksum_mismatch)
unfolding compared
compared-hexes body hexes hex eight = rw (eight, stoul_16-hexes hexes hex eight) refl

-- A sum line is compared by the number in it.
pub check_sum-save_line :
    (body : List ℕ) (sum : ℕ)
    → sum < 2 ^ 32
    → check_sum body (save_line (codes "CHK " ++ to_hex sum))
      ≡ (if sum == checksum body then ok tt else throw checksum_mismatch)
unfolding check_sum next_word compared
check_sum-save_line body sum low =
    ap (λ o. compared body o.0)
      (next_word-space [] (to_hex sum) (10 ∷ [])
        (hex-IsWord (to_hex sum) (hex_digits-hex 8 sum) (length-hex_digits 8 sum)) refl)
    ∙ compared-hexes body (to_hex sum) (hex_digits-hex 8 sum) (length-hex_digits 8 sum)
    ∙ ap (λ (n : ℕ). if n == checksum body then ok tt else throw checksum_mismatch)
        (ap (λ (n : ℕ). n % 2 ^ 32) (hex_value-hex_digits 8 sum (omega arith)) ∙ omega arith)

first_here :
    (rest : List ℕ)
    → split_checksum (codes "CHK " ++ rest) ≡ none
    → split_checksum (10 ∷ codes "CHK " ++ rest) ≡ some (10 ∷ [], codes "CHK " ++ rest)
unfolding split_checksum starts_with
first_here rest e = rw e refl

-- `read` finds the line that `write` put last.
pub split_checksum-last :
    (body : List ℕ) (sum : ℕ)
    → (l : List ℕ) × (body ≡ l ++ 10 ∷ [])
    → split_checksum (body ++ save_line (codes "CHK " ++ to_hex sum))
      ≡ some (body, save_line (codes "CHK " ++ to_hex sum))
split_checksum-last body sum (l, e) =
    let last = save_line (codes "CHK " ++ to_hex sum) in
    ap (λ t. split_checksum (t ++ last)) e
    ∙ ap split_checksum (append_assoc l (10 ∷ []) last)
    ∙ split_checksum-append l (10 ∷ last) (10 ∷ []) last (
        first_here (to_hex sum ++ 10 ∷ []) (
          split_checksum-none (codes "CHK " ++ to_hex sum)
            (refl, (refl, (refl, (refl, hex-IsLine (to_hex sum) (hex_digits-hex 8 sum)))))))
    ∙ ap (λ t. some (t, last)) (sym e)
