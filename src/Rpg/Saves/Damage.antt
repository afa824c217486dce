-- ===== src/Rpg/Saves/Damage.antt =====
-- A save of demo-rpg/src/save_manager.cpp with one byte changed.
use c_book.Prelude.{
  ℕ, ◌+◌, ◌*◌, ◌%◌, ◌^◌, ◌<◌, ◌≡◌, ◌≢◌, ap, ◌∙◌, sym, false, List, [], ◌∷◌, ◌++◌, append_assoc,
  some, none, codes, arith, ◌==◌, if◌then◌else◌, ok, throw, ◌>>=◌,
}
use c_book.Rpg.Saves.Writing.{
  Saved, checksum, checksum_from, checksum_mismatch, no_checksum, to_hex, save_line,
}
use c_book.Rpg.Saves.Reading.{check_sum, read_body, read}
use c_book.Rpg.Saves.Sums.{checksum_from-lt, check_sum-save_line, split_checksum-last}

-- 31 is odd, so that a step of the sum forgets nothing.
step_injective :
    (a b c : ℕ) → a < 2 ^ 32 → b < 2 ^ 32 → (a * 31 + c) % 2 ^ 32 ≡ (b * 31 + c) % 2 ^ 32 → a ≡ b
step_injective a b c ha hb e = omega arith

step_differs :
    (a c d : ℕ) → c < 256 → d < 256 → (a * 31 + c) % 2 ^ 32 ≡ (a * 31 + d) % 2 ^ 32 → c ≡ d
step_differs a c d hc hd e = omega arith

checksum_from-injective :
    (a b : ℕ) (text : List ℕ)
    → a < 2 ^ 32
    → b < 2 ^ 32
    → checksum_from a text ≡ checksum_from b text
    → a ≡ b
unfolding checksum_from
checksum_from-injective a b [] ha hb e = e
checksum_from-injective a b (c ∷ cs) ha hb e = step_injective a b c ha hb (
    checksum_from-injective ((a * 31 + c) % 2 ^ 32) ((b * 31 + c) % 2 ^ 32) cs (omega arith)
      (omega arith) e)

checksum-changed :
    (sum : ℕ) (xs ys : List ℕ) (c d : ℕ)
    → c < 256
    → d < 256
    → checksum_from sum (xs ++ c ∷ ys) ≡ checksum_from sum (xs ++ d ∷ ys)
    → c ≡ d
unfolding checksum_from
checksum-changed sum [] ys c d hc hd e = step_differs sum c d hc hd (
    checksum_from-injective ((sum * 31 + c) % 2 ^ 32) ((sum * 31 + d) % 2 ^ 32) ys (omega arith)
      (omega arith) e)
checksum-changed sum (x ∷ xs) ys c d hc hd e =
    checksum-changed ((sum * 31 + x) % 2 ^ 32) xs ys c d hc hd e

-- Where one byte of a text of whole lines is another one than when the sum was taken, and not the last
-- byte, `read` throws the exception for the sum, into whatever game it reads.
pub read-damaged :
    (xs ys : List ℕ) (c d : ℕ) (s : Saved)
    → c < 256
    → d < 256
    → c ≢ d
    → let sum = checksum (xs ++ c ∷ (ys ++ 10 ∷ [])) in
      read (some ((xs ++ d ∷ (ys ++ 10 ∷ [])) ++ save_line (codes "CHK " ++ to_hex sum))) s
      ≡ throw checksum_mismatch
unfolding read
read-damaged xs ys c d s hc hd differ =
    let sum = checksum (xs ++ c ∷ (ys ++ 10 ∷ [])) in
    let body = xs ++ d ∷ (ys ++ 10 ∷ []) in
    ap
      (λ x. elim x [
        | none ↦ throw no_checksum
        | some (b, l) ↦ check_sum b l >>= λ _. read_body b s
      ])
      (split_checksum-last body sum (xs ++ d ∷ ys, sym (append_assoc xs (d ∷ ys) (10 ∷ []))))
    ∙ ap (λ c. c >>= λ _. read_body body s)
        (check_sum-save_line body sum (checksum_from-lt 0 (xs ++ c ∷ (ys ++ 10 ∷ [])) (omega arith))
          ∙ ap (λ b. if b then ok tt else throw checksum_mismatch)
              (unequal sum (checksum body)
                (λ e. differ (checksum-changed 0 xs (ys ++ 10 ∷ []) c d hc hd e))))
  where
    unequal : (m n : ℕ) → m ≢ n → (m == n) ≡ false
    unequal m n h = ground arith
