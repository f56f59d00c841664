-- ===== src/Lists/Doubly.antt =====
-- DoublyLinkedList of list.h. `none` is a failed `CHECK` of the links, which ends the process.
use scudo.Common.{ℕ, ◌==◌, not, Option, some, none, ◌>>=◌, if◌then◌else◌, add_uptr, sub_uptr}
use scudo.Lists.{Links, IntrusiveList, empty, set_next, set_prev}

unfoldable pub push_front : Links → IntrusiveList → ℕ → Links × IntrusiveList
unfolding empty set_next set_prev
push_front m l x = (
  set_next (if empty l then alone else set_prev alone l.first x) x l.first,
  record { size = add_uptr l.size 1; first = x; last = if empty l then x else l.last },
)
  where
    alone : Links
    alone = set_prev m x 0

-- Inserts `x` before `y`.
unfoldable pub insert : Links → IntrusiveList → ℕ → ℕ → Option (Links × IntrusiveList)
unfolding push_front set_next set_prev
insert m l x y =
    if y == l.first
    then some (push_front m l x)
    else if not (m.next before == y)
    then none
    else some (
      set_prev (set_next (set_prev (set_next m before x) x before) x y) y x,
      record l { size = add_uptr l.size 1 },
    )
  where
    before : ℕ
    before = m.prev y

unfoldable pub push_back : Links → IntrusiveList → ℕ → Links × IntrusiveList
unfolding empty set_next set_prev
push_back m l x = (
  set_prev (if empty l then ended else set_next ended l.last x) x l.last,
  record { size = add_uptr l.size 1; first = if empty l then x else l.first; last = x },
)
  where
    ended : Links
    ended = set_next m x 0

unfoldable pub pop_front : Links → IntrusiveList → Links × IntrusiveList
unfolding set_prev
pop_front m l = (
  if m.next l.first == 0 then m else set_prev m (m.next l.first) 0,
  record {
    size = sub_uptr l.size 1;
    first = m.next l.first;
    last = if m.next l.first == 0 then 0 else l.last;
  },
)

-- The part of `remove` at the neighbours.
unfoldable pub bypass_next : Links → ℕ → ℕ → Option Links
unfolding set_next
bypass_next m x before =
    if before == 0
    then some m
    else if not (m.next before == x)
    then none
    else some (set_next m before (m.next x))

unfoldable pub bypass_prev : Links → ℕ → ℕ → ℕ → Option Links
unfolding set_prev
bypass_prev m x before after =
    if after == 0
    then some m
    else if not (m.prev after == x)
    then none
    else some (set_prev m after before)

unfoldable pub remove : Links → IntrusiveList → ℕ → Option (Links × IntrusiveList)
unfolding bypass_next bypass_prev
remove m l x = do
  n ← bypass_next m x (m.prev x)
  n' ← bypass_prev n x (m.prev x) (m.next x)
  some (
    n',
    record {
      size = sub_uptr l.size 1;
      first = if l.first == x then m.next x else l.first;
      last = if l.last == x then m.prev x else l.last;
    },
  )
