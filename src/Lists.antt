-- ===== src/Lists.antt =====
-- list.h: the intrusive lists linked by pointers. The elements' links are a memory by address, in which
-- address 0 is the null pointer.
pub mod Singly
pub mod Doubly
pub mod Stack
use scudo.Common.{ℕ, Bool, ◌==◌, update}

-- `X->Next` and `X->Prev` of every element.
pub record Links : Type 0 where
  pub next : ℕ → ℕ
  pub prev : ℕ → ℕ

pub record IntrusiveList : Type 0 where
  pub size : ℕ
  pub first : ℕ
  pub last : ℕ

unfoldable pub empty : IntrusiveList → Bool
empty l = l.size == 0

unfoldable pub set_next : Links → ℕ → ℕ → Links
set_next m x next = record m { next = update m.next x next }

unfoldable pub set_prev : Links → ℕ → ℕ → Links
set_prev m x prev = record m { prev = update m.prev x prev }

abbrev pub cleared : IntrusiveList
cleared = record { size = 0; first = 0; last = 0 }
