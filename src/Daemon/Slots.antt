-- ===== src/Daemon/Slots.antt =====
-- src/daemon/main.c and src/daemon/defs.h: the array `requests`.
use srepod.Prelude.{
  ℕ, suc, ◌==◌, Bool, false, Option, none, some, List, [], ◌∷◌, ◌>>=◌, ℤ, pos, negsuc,
}
use srepod.Session.{Session}

pub data RequestStatus : Type 0 where
  pending finished failed : RequestStatus

abbrev pub minus_one : ℤ
minus_one = negsuc 0

pub record Request : Type 0 where
  pub pid : ℤ
  pub status : RequestStatus
  pub session : Session

-- A pointer of the array: `NULL`, to a request, or to memory that has been freed.
pub data Slot : Type 0 where
  free : Slot
  live : Request → Slot
  dangling : Slot

unfoldable pub same_pid : ℤ → ℤ → Bool
same_pid (pos a) (pos b) = a == b
same_pid (negsuc a) (negsuc b) = a == b
same_pid _ _ = false

-- The index of the first slot that is `NULL`.
unfoldable pub find_free : List Slot → Option ℕ
find_free [] = none
find_free (free ∷ slots) = some 0
find_free (_ ∷ slots) = do i ← find_free slots; some (suc i)
