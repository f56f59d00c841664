-- ===== src/Lists/Stack.antt =====
-- The front of a singly linked list is a stack.
use scudo.Common.{
  ℕ, ◌+◌, ◌<◌, ◌^◌, ◌≡◌, ◌≢◌, refl, sym, ap, ◌∙◌, subst, ◌==◌, eq→==, ne→==, List, [], ◌∷◌, length,
  All, if◌then◌else◌, update_self, update_ne, add_uptr, sub_uptr, arith,
}
use scudo.Lists.{Links, IntrusiveList, empty, set_next}
use scudo.Lists.Singly.{push_front, pop_front}

-- From the pointer `p`, the links lead through the elements of the list, and from the last to null.
abbrev pub Leads : Links → ℕ → List ℕ → Type 0
Leads m p [] = p ≡ 0
Leads m p (x ∷ xs) = (p ≡ x) × (x ≢ 0) × Leads m (m.next x) xs

-- The last element, or null.
abbrev pub last_of : List ℕ → ℕ
last_of [] = 0
last_of (x ∷ []) = x
last_of (x ∷ y ∷ xs) = last_of (y ∷ xs)

-- The list in memory has these elements, in this order.
pub record Holds (m : Links) (l : IntrusiveList) (xs : List ℕ) : Type 0 where
  pub size : l.size ≡ length xs
  pub leads : Leads m l.first xs
  pub last : l.last ≡ last_of xs

-- A write to the link of an element outside the list is not seen in the list.
Leads-set_next :
    (m : Links) (x v p : ℕ) (xs : List ℕ)
    → All (λ y. y ≢ x) xs
    → Leads m p xs
    → Leads (set_next m x v) p xs
unfolding set_next
Leads-set_next m x v p [] out h = h
Leads-set_next m x v p (y ∷ ys) out h = (
  h.0,
  h.1,
  Leads-set_next m x v ((set_next m x v).next y) ys out.1
      (subst (λ (q : ℕ). Leads m q ys) (sym (update_ne m.next x v y out.0)) h.2),
)

module _ (m : Links) (l : IntrusiveList) (x : ℕ) (xs : List ℕ) (h : Holds m l xs) (there : x ≢ 0)
    (out : All (λ y. y ≢ x) xs) (fits : l.size + 1 < 2 ^ 64) where
  ends :
      (ys : List ℕ)
      → l.size ≡ length ys
      → Leads m l.first ys
      → l.last ≡ last_of ys
      → (if l.size == 0 then x else l.last) ≡ last_of (x ∷ ys)
  ends [] size leads last = rw (eq→== l.size 0 size) refl
  ends (y ∷ ys) size leads last = rw (ne→== l.size 0 (omega (arith, size))) last

  push_front-Holds : Holds (push_front m l x).0 (push_front m l x).1 (x ∷ xs)
  unfolding push_front set_next empty
  push_front-Holds = record {
    size = omega (arith, h.size, fits);
    leads = (
      refl,
      there,
      subst (λ (q : ℕ). Leads (set_next m x l.first) q xs) (sym (update_self m.next x l.first))
          (Leads-set_next m x l.first l.first xs out h.leads),
    );
    last = ends xs h.size h.leads h.last;
  }

  size_back : sub_uptr (add_uptr l.size 1) 1 ≡ l.size
  size_back = omega (arith, fits)

  last_back :
      (ys : List ℕ)
      → l.size ≡ length ys
      → Leads m l.first ys
      → l.last ≡ last_of ys
      → (if l.first == 0 then 0 else if l.size == 0 then x else l.last) ≡ l.last
  last_back [] size leads last = rw (eq→== l.first 0 leads) (sym last)
  last_back (y ∷ ys) size leads last =
      rw (ne→== l.first 0 (λ e. leads.1 (sym leads.0 ∙ e)), ne→== l.size 0 (omega (arith, size)))
        refl

  popped : pop_front (push_front m l x).0 (push_front m l x).1 ≡ l
  unfolding pop_front push_front set_next empty
  popped = λ i. record {
    size = size_back i;
    first = update_self m.next x l.first i;
    last =
        (ap (λ (n : ℕ). if n == 0 then 0 else if l.size == 0 then x else l.last)
              (update_self m.next x l.first)
            ∙ last_back xs h.size h.leads h.last)
          i;
  }

  -- On a singly linked list in memory that holds some elements, for an element outside of it that is
  -- not null, where the size does not wrap: after pushing the element to the front, the list in
  -- memory holds it and then the others in their order, and no link but that of the element has
  -- changed; taking the front off gives the list back, with the elements that it held.
  pub pop_front-push_front :
      Holds (push_front m l x).0 (push_front m l x).1 (x ∷ xs)
      × ((y : ℕ) → y ≢ x → (push_front m l x).0.next y ≡ m.next y)
      × ((push_front m l x).0.prev ≡ m.prev)
      × (pop_front (push_front m l x).0 (push_front m l x).1 ≡ l)
      × Holds (push_front m l x).0 l xs
  unfolding push_front set_next
  pop_front-push_front = (
    push_front-Holds,
    update_ne m.next x l.first,
    refl,
    popped,
    record {
      size = h.size;
      leads = Leads-set_next m x l.first l.first xs out h.leads;
      last = h.last;
    },
  )
