-- ===== src/Lists/Singly.antt =====
-- SinglyLinkedList of list.h.
use scudo.Common.{ℕ, ◌==◌, if◌then◌else◌, add_uptr, sub_uptr}
use scudo.Lists.{Links, IntrusiveList, empty, set_next, cleared}

unfoldable pub push_back : Links → IntrusiveList → ℕ → Links × IntrusiveList
unfolding empty set_next
push_back m l x = (
  if empty l then ended else set_next ended l.last x,
  record { size = add_uptr l.size 1; first = if empty l then x else l.first; last = x },
)
  where
    ended : Links
    ended = set_next m x 0

unfoldable pub push_front : Links → IntrusiveList → ℕ → Links × IntrusiveList
unfolding empty set_next
push_front m l x = (
  set_next m x l.first,
  record { size = add_uptr l.size 1; first = x; last = if empty l then x else l.last },
)

unfoldable pub pop_front : Links → IntrusiveList → IntrusiveList
pop_front m l = record {
  size = sub_uptr l.size 1;
  first = m.next l.first;
  last = if m.next l.first == 0 then 0 else l.last;
}

-- Inserts `x` next to `prev`.
unfoldable pub insert : Links → IntrusiveList → ℕ → ℕ → Links × IntrusiveList
unfolding set_next
insert m l prev x = (
  set_next (set_next m x (m.next prev)) prev x,
  record l { size = add_uptr l.size 1; last = if l.last == prev then x else l.last },
)

unfoldable pub extract : Links → IntrusiveList → ℕ → ℕ → Links × IntrusiveList
unfolding set_next
extract m l prev x = (
  set_next m prev (m.next x),
  record l { size = sub_uptr l.size 1; last = if l.last == x then prev else l.last },
)

-- The list and the other, which is left empty.
unfoldable pub append_back :
    Links → IntrusiveList → IntrusiveList → Links × IntrusiveList × IntrusiveList
unfolding empty set_next
append_back m l from =
    if empty from then (m, l, from) else if empty l then (m, from, cleared) else (
      set_next m l.last from.first,
      record l { last = from.last; size = add_uptr l.size from.size },
      cleared,
    )
