-- ===== src/Storage/Page.antt =====
-- src/storage/page.h: page ids, and the page that a frame holds.
use myrmdb.Prelude.{ℕ, Bool, ◌≡◌, ◌<◌, arith, ltb, if◌then◌else◌, true, ℕ_discrete}
use myrmdb.Prelude.Int.{ℤ, negsuc, ltb_ℤ}

pub record PageId : Type 0 where
  pub fd : ℕ
  pub page_no : ℤ

abbrev pub invalid_page_id : ℤ
invalid_page_id = negsuc 0

unfoldable pub PageId-discrete : Discrete PageId
PageId-discrete = hlevel ℕ_discrete

-- `operator<`
unfoldable pub less : PageId → PageId → Bool
less a b = if ltb a.fd b.fd then true else ltb_ℤ a.page_no b.page_no

-- Of two pages in different files, the one in the file with the lower handle and with the higher
-- page number, and the other one: each is less than the other.
pub less_not_order :
    (a b : PageId)
    → a.fd < b.fd
    → ltb_ℤ b.page_no a.page_no ≡ true
    → (less a b ≡ true) × (less b a ≡ true)
unfolding less
less_not_order a b h k = ground arith
