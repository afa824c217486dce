-- ===== src/Rpg/Saves/Items.antt =====
-- The items of demo-rpg/src/save_manager.cpp, written and read back.
use c_book.Prelude.{
  ℕ, ◌<◌, ◌≡◌, ◌⊎◌, refl, ap, ap₂, ◌∙◌, sym, false, List, [], ◌∷◌, ◌++◌, append-nil, All, codes,
  inl, inr, arith, ◌==◌, if◌then◌else◌, ok,
}
use c_book.Prelude.Int.{ℤ, pos}
use c_book.Rpg.Items.{Item, weapon, armor, consumable}
use c_book.Rpg.Streams.{stream, next_word, next_int, print_int, skip_spaces}
use c_book.Rpg.Saves.Writing.{escape, unescape, fields, item_line}
use c_book.Rpg.Saves.Reading.{parse_item, make_item}
use c_book.Rpg.Saves.Words.{IsInk, IsWord, IsStop, IsInt32, next_word-word, next_int-print_int}

-- A name that comes back: it is not empty, has no underscore, and no white space but spaces.
abbrev pub IsPlain : ℕ → Type 0
IsPlain c = ((c ≡ 32) ⊎ IsInk c) × ((c == 95) ≡ false)

abbrev pub IsName : List ℕ → Type 0
IsName [] = 0 < 0
IsName (c ∷ cs) = IsPlain c × All IsPlain cs

escape-IsInk : (c : ℕ) → IsPlain c → IsInk (if c == 32 then 95 else c)
escape-IsInk c (inl e, h) = ground arith
escape-IsInk c (inr e, h) = ground arith

escape-all-IsInk : (cs : List ℕ) → All IsPlain cs → All IsInk (escape cs)
unfolding escape
escape-all-IsInk [] h = tt
escape-all-IsInk (c ∷ cs) h = (escape-IsInk c h.0, escape-all-IsInk cs h.1)

pub escape-IsWord : (name : List ℕ) → IsName name → IsWord (escape name)
unfolding escape
escape-IsWord [] h = absurd (omega arith)
escape-IsWord (c ∷ cs) h = (escape-IsInk c h.0, escape-all-IsInk cs h.1)

unescape-all : (cs : List ℕ) → All IsPlain cs → unescape (escape cs) ≡ cs
unfolding escape unescape
unescape-all [] h = refl
unescape-all (c ∷ cs) h = ap₂ (λ d ds. d ∷ ds) (back c h.0) (unescape-all cs h.1)
  where
    back :
        (c : ℕ)
        → IsPlain c
        → (if (if c == 32 then 95 else c) == 95 then 32 else if c == 32 then 95 else c) ≡ c
    back c h = ground arith

pub unescape-escape : (name : List ℕ) → IsName name → unescape (escape name) ≡ name
unescape-escape [] h = absurd (omega arith)
unescape-escape (c ∷ cs) h = unescape-all (c ∷ cs) h

pub next_word-space :
    (old w tail : List ℕ)
    → IsWord w
    → IsStop tail
    → next_word old (stream (32 ∷ w ++ tail)) ≡ (w, stream tail)
unfolding next_word skip_spaces
next_word-space old w tail h s = next_word-word old w tail h s

pub next_int-last :
    (old n : ℤ) → IsInt32 n → next_int old (stream (32 ∷ print_int n)) ≡ (n, stream [])
next_int-last old n h =
    ap (λ l. next_int old (stream (32 ∷ l))) (sym (append-nil (print_int n)))
    ∙ next_int-print_int old n [] h tt

parse_item-fields :
    (type name : List ℕ) (w x : ℤ)
    → IsWord type
    → IsName name
    → IsInt32 w
    → IsInt32 x
    → parse_item (stream (32 ∷ fields type name w x)) ≡ make_item type name w x
unfolding parse_item fields
parse_item-fields type name w x ht hn hw hx =
    rw
      (
        next_word-space [] type (32 ∷ escape name ++ (32 ∷ print_int w ++ (32 ∷ print_int x))) ht
            refl,
        next_word-space [] (escape name) (32 ∷ print_int w ++ (32 ∷ print_int x))
            (escape-IsWord name hn) refl,
        next_int-print_int (pos 0) w (32 ∷ print_int x) hw refl,
        next_int-last (pos 0) x hx,
        unescape-escape name hn,
      )
      refl

-- An item that comes back.
abbrev pub IsSavable : Item → Type 0
IsSavable (weapon n w d) = IsName n × IsInt32 w × IsInt32 d
IsSavable (armor n w d) = IsName n × IsInt32 w × IsInt32 d
IsSavable (consumable n w h) = IsName n × IsInt32 w × IsInt32 h

pub parse_item-item_line : (i : Item) → IsSavable i → parse_item (stream (32 ∷ item_line i)) ≡ ok i
unfolding item_line make_item
parse_item-item_line (weapon n w d) h =
    parse_item-fields (codes "weapon") n w d (refl, (refl, (refl, (refl, (refl, (refl, tt)))))) h.0
      h.1 h.2
parse_item-item_line (armor n w d) h =
    parse_item-fields (codes "armor") n w d (refl, (refl, (refl, (refl, (refl, tt))))) h.0 h.1 h.2
parse_item-item_line (consumable n w d) h =
    parse_item-fields (codes "consumable") n w d
      (refl, (refl, (refl, (refl, (refl, (refl, (refl, (refl, (refl, (refl, tt)))))))))) h.0 h.1 h.2
