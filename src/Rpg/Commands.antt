-- ===== src/Rpg/Commands.antt =====
-- demo-rpg/include/commands.h and demo-rpg/src/commands.cpp. A handler is what it does to the state
-- that its lambda captures.
use c_book.Prelude.{ℕ, ◌≡◌, Bool, true, false, List, none, some, arith, bytes_eq, ◌∙◌}
use c_book.Prelude.Tables.{Table, find_key, assign, find_key-assign, find_key-assign-other}

module _ (S : Type 0) where
  abbrev pub Handler : Type 0
  Handler = List ℕ → S → S

  pub record CommandRegistry : Type 0 where
    pub handlers : Table Handler
    pub aliases : Table (List ℕ)

module _ {S : Type 0} where
  unfoldable pub add_handler : List ℕ → Handler S → CommandRegistry S → CommandRegistry S
  add_handler name handler r = record r { handlers = assign name handler r.handlers }

  unfoldable pub add_alias : List ℕ → List ℕ → CommandRegistry S → CommandRegistry S
  add_alias alias target r = record r { aliases = assign alias target r.aliases }

  -- The name behind a verb: an alias is resolved once.
  unfoldable pub resolve : List ℕ → CommandRegistry S → List ℕ
  resolve verb r = elim (find_key verb r.aliases) [ none ↦ verb | some target ↦ target ]

  -- Whether there is a handler, and what it did.
  unfoldable pub dispatch : List ℕ → List ℕ → CommandRegistry S → S → Bool × S
  unfolding resolve
  dispatch verb rest r s = elim (find_key (resolve verb r) r.handlers) [
    | none ↦ (false, s)
    | some handler ↦ (true, handler rest s)
  ]

  dispatch-found :
      (verb name rest : List ℕ) (handler : Handler S) (r : CommandRegistry S) (s : S)
      → resolve verb r ≡ name
      → find_key name r.handlers ≡ some handler
      → dispatch verb rest r s ≡ (true, handler rest s)
  unfolding dispatch
  dispatch-found verb name rest handler r s h k = ground arith

  resolve-alias :
      (verb target : List ℕ) (r : CommandRegistry S)
      → find_key verb r.aliases ≡ some target
      → resolve verb r ≡ target
  unfolding resolve
  resolve-alias verb target r h = ground arith

  resolve-plain :
      (verb : List ℕ) (r : CommandRegistry S)
      → find_key verb r.aliases ≡ none
      → resolve verb r ≡ verb
  unfolding resolve
  resolve-plain verb r h = ground arith

-- After `add` of a command that is no alias and `add_alias` of another name for it, both names run
-- its handler, whatever was registered before.
pub dispatch-add_alias :
    {S : Type 0} (name alias rest : List ℕ) (handler : Handler S) (r : CommandRegistry S) (s : S)
    → find_key name r.aliases ≡ none
    → bytes_eq alias name ≡ false
    → (dispatch alias rest (add_alias alias name (add_handler name handler r)) s
        ≡ (true, handler rest s))
      × (dispatch name rest (add_alias alias name (add_handler name handler r)) s
          ≡ (true, handler rest s))
unfolding add_handler add_alias
dispatch-add_alias name alias rest handler r s h k = (
  dispatch-found alias name rest handler _ s
      (resolve-alias alias name _ (find_key-assign alias name r.aliases))
      (find_key-assign name handler r.handlers),
  dispatch-found name name rest handler _ s
      (resolve-plain name _ (find_key-assign-other alias name name r.aliases k ∙ h))
      (find_key-assign name handler r.handlers),
)
