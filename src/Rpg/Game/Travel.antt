-- ===== src/Rpg/Game/Travel.antt =====
-- Where `go` leads.
use c_book.Prelude.{ℕ, ◌≡◌, ◌≢◌, refl, sym, subst, List, [], ◌∷◌, some, ◌⊎◌, inl, inr, arith}
use c_book.Rpg.Places.{Location, World, exit, find_location}
use c_book.Rpg.Game.{Game, cmd_go}

-- Every exit leads to a location of the world.
abbrev pub IsClosed : World → Type 0
IsClosed w =
    (id direction : List ℕ) (l : Location)
    → find_location id w ≡ some l
    → exit direction l ≢ []
    → (m : Location) × (find_location (exit direction l) w ≡ some m)

cmd_go-nowhere :
    (d : List ℕ) (g : Game) (l : Location)
    → find_location g.current_location_id g.world ≡ some l
    → exit d l ≡ []
    → cmd_go d g ≡ g
unfolding cmd_go
cmd_go-nowhere d g l here e = ground arith

cmd_go-there :
    (d : List ℕ) (g : Game) (l : Location) (c : ℕ) (target : List ℕ)
    → find_location g.current_location_id g.world ≡ some l
    → exit d l ≡ c ∷ target
    → cmd_go d g ≡ record g { current_location_id = c ∷ target }
unfolding cmd_go
cmd_go-there d g l c target here e = ground arith

-- In a world whose exits lead to its locations, a player who stands in a location stands in one
-- after `go`: in the one that the exit names, or where there is no such exit, in the same. Neither
-- the world nor the player is changed.
pub cmd_go_lem :
    (d : List ℕ) (g : Game) (l : Location)
    → IsClosed g.world
    → find_location g.current_location_id g.world ≡ some l
    → (m : Location) × (find_location (cmd_go d g).current_location_id g.world ≡ some m)
      × (((exit d l ≡ []) × (cmd_go d g ≡ g))
          ⊎ (((cmd_go d g).current_location_id ≡ exit d l)
              × ((cmd_go d g).world ≡ g.world)
              × ((cmd_go d g).player ≡ g.player)))
cmd_go_lem d g l closed here = cases (exit d l) refl
  where
    cases :
        (t : List ℕ)
        → exit d l ≡ t
        → (m : Location) × (find_location (cmd_go d g).current_location_id g.world ≡ some m)
          × (((exit d l ≡ []) × (cmd_go d g ≡ g))
              ⊎ (((cmd_go d g).current_location_id ≡ exit d l)
                  × ((cmd_go d g).world ≡ g.world)
                  × ((cmd_go d g).player ≡ g.player)))
    cases [] e =
        let still = cmd_go-nowhere d g l here e in
        (
          l,
          subst (λ h. find_location h.current_location_id g.world ≡ some l) (sym still) here,
          inl (e, still),
        )
    cases (c ∷ t) e =
        let gone = cmd_go-there d g l c t here e in
        let (m, found) = closed g.current_location_id d l here (λ h. cc (e, h)) in
        (
          m,
          subst (λ h. find_location h.current_location_id g.world ≡ some m) (sym gone)
              (subst (λ i. find_location i g.world ≡ some m) e found),
          inr (cc (gone, e), cc gone, cc gone),
        )
