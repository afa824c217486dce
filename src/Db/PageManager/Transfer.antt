-- ===== src/Db/PageManager/Transfer.antt =====
-- The loops round `pread` and `pwrite`: a call may move part of what is left, be interrupted by a
-- signal, or fail.
use c_book.Prelude.{
  ℕ, ◌+◌, ◌-◌, ◌≤◌, ◌≡◌, Bool, true, false, List, [], ◌∷◌, min, ltb, if◌then◌else◌, arith,
}

abbrev pub page_size : ℕ
page_size = 4096

-- What a system call does; `moved n` moves n + 1 bytes, or all that are left.
pub data Sys : Type 0 where
  moved : ℕ → Sys
  interrupted failed : Sys

-- The bytes moved, the calls counted in the statistics, what later calls do, and whether the loop
-- ended by its condition.
pub record Transferred : Type 0 where
  pub total : ℕ
  pub calls : ℕ
  pub io : List Sys
  pub done : Bool

-- `while (total < PAGE_SIZE) { n = call(...); if (n < 0) { if (errno == EINTR) continue; throw }
-- ++calls; total += n; }`. Calls beyond the list move all that is left.
unfoldable pub transfer_loop : List Sys → ℕ → ℕ → Transferred
transfer_loop [] total calls =
    if ltb total page_size
    then record { total = page_size; calls = calls + 1; io = []; done = true }
    else record { total = total; calls = calls; io = []; done = true }
transfer_loop (moved n ∷ io) total calls =
    let rest = transfer_loop io (total + min (n + 1) (page_size - total)) (calls + 1) in
    if ltb total page_size
    then rest
    else record { total = total; calls = calls; io = moved n ∷ io; done = true }
transfer_loop (interrupted ∷ io) total calls =
    let rest = transfer_loop io total calls in
    if ltb total page_size
    then rest
    else record { total = total; calls = calls; io = interrupted ∷ io; done = true }
transfer_loop (failed ∷ io) total calls =
    if ltb total page_size
    then record { total = total; calls = calls; io = io; done = false }
    else record { total = total; calls = calls; io = failed ∷ io; done = true }

-- A loop that ends by its condition has moved the whole page, however the calls cut it up.
pub transfer_loop-total :
    (io : List Sys) (total calls : ℕ)
    → total ≤ page_size
    → (transfer_loop io total calls).done ≡ true
    → (transfer_loop io total calls).total ≡ page_size
unfolding transfer_loop
transfer_loop-total [] total calls h e = ground arith
transfer_loop-total (moved n ∷ io) total calls h e =
    ground (arith, transfer_loop-total io (total + min (n + 1) (page_size - total)) (calls + 1))
transfer_loop-total (interrupted ∷ io) total calls h e =
    ground (arith, transfer_loop-total io total calls)
transfer_loop-total (failed ∷ io) total calls h e = ground arith

pub transfer_loop-bound :
    (io : List Sys) (total calls : ℕ)
    → total ≤ page_size
    → (transfer_loop io total calls).total ≤ page_size
unfolding transfer_loop
transfer_loop-bound [] total calls h = ground arith
transfer_loop-bound (moved n ∷ io) total calls h =
    ground (arith, transfer_loop-bound io (total + min (n + 1) (page_size - total)) (calls + 1))
transfer_loop-bound (interrupted ∷ io) total calls h =
    ground (arith, transfer_loop-bound io total calls)
transfer_loop-bound (failed ∷ io) total calls h = ground arith
