-- ===== src/Tests/Pages.antt =====
-- Two pages of different files.

use myrmdb.Prelude.{◌≡◌, refl, true}
use myrmdb.Prelude.Int.{pos}
use myrmdb.Storage.Page.{PageId, less}

abbrev first : PageId
first = record { fd = 3; page_no = pos 9 }

abbrev second : PageId
second = record { fd = 4; page_no = pos 2 }

-- The operator holds both ways between the two.
both_less : (less first second ≡ true) × (less second first ≡ true)
unfolding less
both_less = (refl, refl)
