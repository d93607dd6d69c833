-- ===== src/Panel/Announcements/Unique.antt =====
-- Lists of announcements in which no number stands twice (tracker/src/widget.ts).
use trace_ux.Base.{
  ℕ, suc, ◌≡◌, refl, sym, subst, ◌∙◌, inl, inr, false, not, ◌&&◌, List, [], ◌∷◌, map, arith, ◌==◌,
  filter, Bool-cases,
}
use trace_ux.Panel.Announcements.{
  Item, Announcement, has_id, includes, without, precedes, insert, sort, allocate, read_if,
}

-- No number twice.
abbrev pub Unique : List Announcement → Type 0
Unique [] = Unit
Unique (a ∷ as') = (has_id a.item.id as' ≡ false) × Unique as'

pub insert-has_id :
    (n : ℕ) (a : Announcement) (bs : List Announcement) → has_id n (insert a bs) ≡ has_id n (a ∷ bs)
unfolding insert has_id
insert-has_id n a [] = refl
insert-has_id n a (b ∷ bs) = ground (arith, insert-has_id n a bs)

pub sort-has_id : (n : ℕ) (as' : List Announcement) → has_id n (sort as') ≡ has_id n as'
unfolding sort has_id
sort-has_id n [] = refl
sort-has_id n (a ∷ as') =
    insert-has_id n a (sort as') ∙ unfold has_id in ground (arith, sort-has_id n as')

pub insert-Unique :
    (a : Announcement) (bs : List Announcement)
    → has_id a.item.id bs ≡ false
    → Unique bs
    → Unique (insert a bs)
unfolding insert has_id
insert-Unique a [] h v = (refl, tt)
insert-Unique a (b ∷ bs) h v = elim (Bool-cases (precedes b.item a.item)) [
  | inl e ↦ rw e (
    insert-has_id b.item.id a bs ∙ ground (arith, h, v.0),
    insert-Unique a bs (ground (arith, h)) v.1,
  )
  | inr e ↦ rw e (h, v)
]

pub sort-Unique : (as' : List Announcement) → Unique as' → Unique (sort as')
unfolding sort
sort-Unique [] v = tt
sort-Unique (a ∷ as') v =
    insert-Unique a (sort as') (sort-has_id a.item.id as' ∙ v.0) (sort-Unique as' v.1)

pub without-has_id :
    (n m : ℕ) (as' : List Announcement) → has_id n (without m as') ≡ not (n == m) && has_id n as'
unfolding without filter has_id
without-has_id n m [] = ground arith
without-has_id n m (a ∷ as') = ground (arith, without-has_id n m as')

pub without-Unique : (m : ℕ) (as' : List Announcement) → Unique as' → Unique (without m as')
unfolding without filter
without-Unique m [] v = tt
without-Unique m (a ∷ as') v = elim (Bool-cases (a.item.id == m)) [
  | inl e ↦ rw e (without-Unique m as' v.1)
  | inr e ↦ rw e (without-has_id a.item.id m as' ∙ ground (arith, v.0), without-Unique m as' v.1)
]

pub filter-includes :
    (n m : ℕ) (ns : List ℕ)
    → includes n (filter (λ k. not (k == m)) ns) ≡ not (n == m) && includes n ns
unfolding filter includes
filter-includes n m [] = ground arith
filter-includes n m (k ∷ ns) = ground (arith, filter-includes n m ns)

-- An answer names no announcement twice.
abbrev pub Once : List Item → Type 0
Once [] = Unit
Once (a ∷ as') = (includes a.id (map (λ b. b.id) as') ≡ false) × Once as'

pub allocate-has_id :
    (n r : ℕ) (as' : List Item) → has_id n (allocate r as') ≡ includes n (map (λ b. b.id) as')
unfolding allocate has_id includes
allocate-has_id n r [] = refl
allocate-has_id n r (a ∷ as') = ground (arith, allocate-has_id n (suc r) as')

pub allocate-Unique : (r : ℕ) (as' : List Item) → Once as' → Unique (allocate r as')
unfolding allocate
allocate-Unique r [] v = tt
allocate-Unique r (a ∷ as') v =
    (allocate-has_id a.id (suc r) as' ∙ v.0, allocate-Unique (suc r) as' v.1)

pub read_if-id : (r : ℕ) (a : Announcement) → (read_if r a).item.id ≡ a.item.id
read_if-id r a = ground arith

pub read-has_id :
    (n r : ℕ) (as' : List Announcement) → has_id n (map (read_if r) as') ≡ has_id n as'
unfolding has_id
read-has_id n r [] = refl
read-has_id n r (a ∷ as') = ground (arith, read_if-id r a, read-has_id n r as')

pub read-Unique : (r : ℕ) (as' : List Announcement) → Unique as' → Unique (map (read_if r) as')
read-Unique r [] v = tt
read-Unique r (a ∷ as') v = (
  subst (λ n. has_id n (map (read_if r) as') ≡ false) (sym (read_if-id r a))
      (read-has_id a.item.id r as' ∙ v.0),
  read-Unique r as' v.1,
)
