-- ===== src/Bytes/Tests.antt =====
-- The integers and strings of demo-db/include/binary.h on concrete bytes.
use c_book.Prelude.{◌≡◌, refl, [], ◌∷◌}
use c_book.Bytes.{write_u32}

write_u32_test : write_u32 [] 258 ≡ 2 ∷ 1 ∷ 0 ∷ 0 ∷ []
unfolding write_u32
write_u32_test = refl
