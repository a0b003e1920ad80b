-- ===== src/Concurrency/Locks/Modes.antt =====
-- What each lock mode permits, and the three tables of lock_manager.cpp read against it.
use myrmdb.Prelude.{◌≡◌, refl, Bool, true, false, ◌&&◌, ◌||◌, not, List, [], ◌∷◌, arith}
use myrmdb.Concurrency.Locks.{
  LockMode, shared, exlucsive, intention_exclusive, s_ix, GroupLockMode, non_lock, is, ix, s, x,
  six, LockRequest, mode_eq, compatible, is_stronger_or_equal, has, compute_group_mode,
}

-- The rights of a mode on the locked item itself: read all of it, write all of it, or write parts
-- of it under finer locks. Every mode lets parts be read under finer locks.
abbrev pub reads_all : LockMode → Bool
reads_all shared = true
reads_all exlucsive = true
reads_all s_ix = true
reads_all _ = false

abbrev pub writes_all : LockMode → Bool
writes_all exlucsive = true
writes_all _ = false

abbrev pub writes_part : LockMode → Bool
writes_part exlucsive = true
writes_part intention_exclusive = true
writes_part s_ix = true
writes_part _ = false

-- Two holders are in conflict if one may write all of the item, or may write a part of what the
-- other may read as a whole. Two writers of parts meet again at the finer locks.
abbrev pub conflicts : LockMode → LockMode → Bool
conflicts a b =
    writes_all a || writes_all b || (reads_all a && writes_part b) || (writes_part a && reads_all b)

pub conflicts_symm : (a b : LockMode) → conflicts a b ≡ conflicts b a
conflicts_symm a b = ground arith

-- A request is compatible with a granted lock exactly when the two modes are not in conflict and
-- the request is not S_IX; S_IX is refused beside every lock, also beside IS, where no conflict is.
pub compatible_exact :
    (r g : LockMode) → compatible r g ≡ not (mode_eq r s_ix) && not (conflicts r g)
unfolding compatible
compatible_exact r g = ground arith

pub compatible_sound : (r g : LockMode) → compatible r g ≡ true → conflicts g r ≡ false
compatible_sound r g h = ground (arith, compatible_exact r g)

-- Bool's order.
abbrev pub implies : Bool → Bool → Bool
implies a b = not a || b

-- A held mode is stronger than or equal to a requested one exactly when it has each of its rights.
pub is_stronger_or_equal_exact :
    (h r : LockMode)
    → is_stronger_or_equal h r
      ≡ implies (reads_all r) (reads_all h)
        && implies (writes_all r) (writes_all h)
        && implies (writes_part r) (writes_part h)
unfolding is_stronger_or_equal
is_stronger_or_equal_exact h r = ground arith

-- The rights that a group mode stands for.
abbrev pub mode_of : GroupLockMode → Bool × Bool × Bool
mode_of non_lock = (false, false, false)
mode_of is = (false, false, false)
mode_of ix = (false, false, true)
mode_of s = (true, false, false)
mode_of x = (true, true, true)
mode_of six = (true, false, true)

-- Some granted request of the queue has the right.
abbrev pub some_granted : (LockMode → Bool) → List LockRequest → Bool
some_granted right [] = false
some_granted right (r ∷ rs) = (r.granted && right r.lock_mode) || some_granted right rs

abbrev pub never_locked : List LockRequest → Bool
never_locked q = not (some_granted (λ m. true) q)

some_granted-reads :
    (q : List LockRequest)
    → some_granted reads_all q ≡ (has shared q || has exlucsive q || has s_ix q)
unfolding has
some_granted-reads [] = refl
some_granted-reads (r ∷ q) = ground (arith, some_granted-reads q)

some_granted-writes : (q : List LockRequest) → some_granted writes_all q ≡ has exlucsive q
unfolding has
some_granted-writes [] = refl
some_granted-writes (r ∷ q) = ground (arith, some_granted-writes q)

some_granted-parts :
    (q : List LockRequest)
    → some_granted writes_part q ≡ (has exlucsive q || has intention_exclusive q || has s_ix q)
unfolding has
some_granted-parts [] = refl
some_granted-parts (r ∷ q) = ground (arith, some_granted-parts q)

-- The group mode has a right exactly when some granted request of the queue has it.
pub compute_group_mode_exact :
    (q : List LockRequest)
    → mode_of (compute_group_mode q)
      ≡ (some_granted reads_all q, some_granted writes_all q, some_granted writes_part q)
unfolding compute_group_mode
compute_group_mode_exact q =
    rw (some_granted-reads q)
      (rw (some_granted-writes q) (rw (some_granted-parts q) (ground arith)))
