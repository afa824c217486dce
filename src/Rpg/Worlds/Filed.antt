-- ===== src/Rpg/Worlds/Filed.antt =====
-- The worlds that demo-rpg/src/world_parser.cpp makes: each location is filed under its own
-- identifier, once.
use c_book.Prelude.{
  ℕ, suc, ◌≡◌, ◌⊎◌, refl, ap, ◌∙◌, sym, subst, Bool, true, false, not, ◌||◌, List, [], ◌∷◌, ◌++◌,
  some, Option-cases, All, All-append, codes, bytes_eq, bytes_eq_refl, get_or, Bool-cases, inl, inr,
  arith, ◌==◌, if◌then◌else◌, Outcome, throw, ok, ◌>>=◌,
}
use c_book.Prelude.Tables.{Table, find_key}
use c_book.Rpg.Items.{Item, add}
use c_book.Rpg.Places.{Location, World, make_location, add_exit, add_location}
use c_book.Rpg.Streams.{Stream, stream, is_white, span_of, skip_spaces, next_word, lines}
use c_book.Rpg.Saves.Words.{IsInk, IsWord}
use c_book.Rpg.Saves.Filling.{IsNew, AreDistinct, assign-new, IsNew-append, new-differs}
use c_book.Rpg.Worlds.{
  WorldError, without_id, trim, LocationDraft, add_exits, add_all, finalize, parse_item_line,
  Parser, commit_draft, parse_field, parse_location, parse_text, parse_world_line,
  parse_world_lines, fresh_parser, parse_world,
}

span_of-IsInk : (l : List ℕ) → All IsInk (span_of (λ b. not (is_white b)) l).0
unfolding span_of
span_of-IsInk [] = tt
span_of-IsInk (c ∷ cs) = elim (Bool-cases (is_white c)) [
  | inl space ↦ rw space tt
  | inr ink ↦ rw ink (ink, span_of-IsInk cs)
]

stream-IsWord :
    (l : List ℕ) → ((next_word [] (stream l)).0 ≡ []) ⊎ IsWord (next_word [] (stream l)).0
unfolding next_word skip_spaces span_of
stream-IsWord [] = inl refl
stream-IsWord (c ∷ cs) = elim (Bool-cases (is_white c)) [
  | inl space ↦ rw space (stream-IsWord cs)
  | inr ink ↦ rw ink (rw ink (inr (ink, span_of-IsInk cs)))
]

-- What is read is a word, where it is not empty.
pub next_word-IsWord : (s : Stream) → ((next_word [] s).0 ≡ []) ⊎ IsWord (next_word [] s).0
unfolding next_word
next_word-IsWord s = elim (Bool-cases s.failed) [
  | inl failed ↦ rw failed (inl refl)
  | inr fine ↦ rw fine (stream-IsWord s.rest)
]

abbrev pub IsFiledUnder : List ℕ × Location → Type 0
IsFiledUnder (key, l) = (key ≡ l.id) × IsWord l.id

abbrev pub IsAtlas : World → Type 0
IsAtlas w = All IsFiledUnder w × AreDistinct w

record IsFiled (p : Parser) : Type 0 where
  atlas : IsAtlas p.world
  named : (p.have_draft ≡ true) → IsWord p.draft.id
  idle : (p.have_draft ≡ false) → p.draft.id ≡ []

distinct-append :
    (w : World) (k : List ℕ) (l : Location)
    → AreDistinct w
    → IsNew k w
    → AreDistinct (w ++ (k, l) ∷ [])
distinct-append [] k l d n = (refl, tt)
distinct-append ((j, x) ∷ w) k l d n =
    let differs = new-differs k ((j, x) ∷ w) n in
    (IsNew-append j k l w d.0 differs.0, distinct-append w k l d.1 (later n differs.0))
  where
    later : IsNew k ((j, x) ∷ w) → bytes_eq k j ≡ false → IsNew k w
    later n e = ground (arith, bytes_eq_refl k)

add_location-IsAtlas :
    (l : Location) (w : World) → IsWord l.id → IsAtlas w → IsAtlas (add_location l w)
unfolding add_location
add_location-IsAtlas l w word (filed, distinct) = elim (Option-cases (find_key l.id w)) [
  | inl new ↦
      rw (new, add_location)
        (subst IsAtlas (sym (assign-new l.id l w new)) (
          All-append IsFiledUnder w _ filed ((refl, word), tt),
          distinct-append w l.id l distinct new,
        ))
  | inr (old, e) ↦ rw (e, add_location) (filed, distinct)
]

add_exits-id : (es : Table (List ℕ)) (l : Location) → (add_exits es l).id ≡ l.id
unfolding add_exits add_exit
add_exits-id [] l = refl
add_exits-id (e ∷ es) l = add_exits-id es (add_exit e.0 e.1 l)

add_all-id : (is : List Item) (l : Location) → (add_all is l).id ≡ l.id
unfolding add_all
add_all-id [] l = refl
add_all-id (i ∷ is) l = add_all-id is (record l { items = add (some i) l.items })

finalize-id : (d : LocationDraft) → (finalize d).id ≡ d.id
unfolding finalize make_location
finalize-id d = add_all-id d.items _ ∙ add_exits-id d.exits (make_location d.id d.name d.desc)

commit_draft-IsAtlas : (p : Parser) → IsFiled p → IsAtlas (commit_draft p).world
unfolding commit_draft
commit_draft-IsAtlas p f = elim (Bool-cases p.have_draft) [
  | inl there ↦ rw there (
      add_location-IsAtlas (finalize p.draft) p.world
        (subst IsWord (sym (finalize-id p.draft)) (f.named there)) f.atlas)
  | inr away ↦ rw away f.atlas
]

committed-id : (p : Parser) → IsFiled p → (commit_draft p).draft.id ≡ []
unfolding commit_draft
committed-id p f = elim (Bool-cases p.have_draft) [
  | inl there ↦ rw there refl
  | inr away ↦ rw away (f.idle away)
]

named-IsWord :
    (old : List ℕ) (s : Stream)
    → old ≡ []
    → bytes_eq (next_word old s).0 [] ≡ false
    → IsWord (next_word old s).0
named-IsWord old s e h = elim (next_word-IsWord s) [
  | inl empty ↦
      let x = ap (λ o. (next_word o s).0) e ∙ empty in
      let y : bytes_eq (next_word old s).0 [] ≡ true =
        ap (λ l. bytes_eq l []) x ∙ bytes_eq_refl [] in
      absurd cc
  | inr word ↦ subst (λ o. IsWord (next_word o s).0) (sym e) word
]

-- What holds of the parser, where there was no exception.
Keeps : Outcome WorldError Parser → Type 0
Keeps (throw e) = Unit
Keeps (ok p) = IsFiled p

Keeps-if :
    (b : Bool) (x y : Outcome WorldError Parser) → Keeps x → Keeps y → Keeps (if b then x else y)
Keeps-if true x y a b = a
Keeps-if false x y a b = b

Keeps-bind :
    (m : Outcome WorldError Parser) (f : Parser → Outcome WorldError Parser)
    → Keeps m
    → ((p : Parser) → IsFiled p → Keeps (f p))
    → Keeps (m >>= f)
unfolding Keeps
Keeps-bind (throw e) f a g = tt
Keeps-bind (ok p) f a g = g p a

Keeps-item :
    (m : Outcome WorldError Item) (f : Item → Parser)
    → ((i : Item) → IsFiled (f i))
    → Keeps (m >>= λ i. ok (f i))
unfolding Keeps
Keeps-item (throw e) f g = tt
Keeps-item (ok i) f g = g i

Keeps-ok : (p : Parser) → IsFiled p → Keeps (ok p)
unfolding Keeps
Keeps-ok p f = f

Keeps-throw : (e : WorldError) → Keeps (throw e)
unfolding Keeps
Keeps-throw e = tt

parse_field-Keeps :
    (keyword : List ℕ) (s : Stream) (p : Parser) → IsFiled p → Keeps (parse_field keyword s p)
unfolding parse_field
parse_field-Keeps keyword s p f =
    let (dir, s1) = next_word [] s in
    let target = (next_word [] s1).0 in
    let same = λ (d : LocationDraft) (e : d.id ≡ p.draft.id).
      Keeps-ok (record p { draft = d })
        (record {
          atlas = f.atlas;
          named = λ h. subst IsWord (sym e) (f.named h);
          idle = λ h. e ∙ f.idle h;
        }) in
    Keeps-if (bytes_eq keyword (codes "name")) _ _ (same _ refl) (
      Keeps-if (bytes_eq keyword (codes "desc")) _ _ (same _ refl) (
        Keeps-if (bytes_eq keyword (codes "exit")) _ _
          (Keeps-if (bytes_eq dir [] || bytes_eq target []) _ _ (Keeps-throw _) (same _ refl))
          (Keeps-if (bytes_eq keyword (codes "item")) _ _
            (Keeps-item (parse_item_line s p.line_no)
              (λ i. record p { draft = record (p.draft) { items = p.draft.items ++ i ∷ [] } })
              (λ i. record { atlas = f.atlas; named = f.named; idle = f.idle }))
            (Keeps-throw _))))

parse_location-Keeps : (s : Stream) (p : Parser) → IsFiled p → Keeps (parse_location s p)
unfolding parse_location
parse_location-Keeps s p f =
    let q = commit_draft p in
    let id = (next_word q.draft.id s).0 in
    elim (Bool-cases (bytes_eq id [])) [
      | inl empty ↦ rw empty (Keeps-throw (without_id q.line_no))
      | inr some_id ↦ rw some_id (
          Keeps-ok _ (record {
            atlas = commit_draft-IsAtlas p f;
            named = λ h. named-IsWord q.draft.id s (committed-id p f) some_id;
            idle = λ h. absurd cc;
          }))
    ]

parse_text-Keeps : (text : List ℕ) (p : Parser) → IsFiled p → Keeps (parse_text text p)
unfolding parse_text
parse_text-Keeps text p f =
    let (keyword, s) = next_word [] (stream text) in
    Keeps-if (bytes_eq keyword (codes "location")) _ _ (parse_location-Keeps s p f)
      (Keeps-if p.have_draft _ _ (parse_field-Keeps keyword s p f) (Keeps-throw _))

parse_world_line-Keeps : (l : List ℕ) (p : Parser) → IsFiled p → Keeps (parse_world_line l p)
unfolding parse_world_line
parse_world_line-Keeps l p f =
    let q : Parser = record p { line_no = suc p.line_no } in
    let g : IsFiled q = record { atlas = f.atlas; named = f.named; idle = f.idle } in
    Keeps-if (bytes_eq (trim l) [] || get_or (trim l) 0 0 == 35) _ _ (Keeps-ok q g)
      (parse_text-Keeps (trim l) q g)

parse_world_lines-Keeps :
    (ls : List (List ℕ)) (p : Parser) → IsFiled p → Keeps (parse_world_lines ls p)
unfolding parse_world_lines
parse_world_lines-Keeps [] p f = Keeps-ok p f
parse_world_lines-Keeps (l ∷ ls) p f =
    Keeps-bind (parse_world_line l p) (parse_world_lines ls) (parse_world_line-Keeps l p f)
      (λ q g. parse_world_lines-Keeps ls q g)

fresh_parser-IsFiled : IsFiled fresh_parser
fresh_parser-IsFiled = record { atlas = (tt, tt); named = λ e. absurd cc; idle = λ e. refl }

-- The world that the parser makes of a text, where it throws nothing, has each location under its own
-- identifier, which is a word, and no identifier twice, whatever locations the text repeats.
pub parse_world-IsAtlas : (text : List ℕ) (w : World) → parse_world text ≡ ok w → IsAtlas w
unfolding parse_world Keeps
parse_world-IsAtlas text w e =
    ended (parse_world_lines (lines text) fresh_parser)
      (parse_world_lines-Keeps (lines text) fresh_parser fresh_parser-IsFiled) e
  where
    ended :
        (m : Outcome WorldError Parser)
        → Keeps m
        → (m >>= λ p. ok (commit_draft p).world) ≡ ok w
        → IsAtlas w
    ended (throw x) k e = absurd cc
    ended (ok p) k e = subst IsAtlas (cc e) (commit_draft-IsAtlas p k)
