-- ===== src/Panel/Announcements/Members.antt =====
-- What holds of every announcement of a list (tracker/src/widget.ts).
use trace_ux.Base.{
  ℕ, suc, ◌+◌, ◌<◌, ◌≡◌, ◌⊎◌, inl, inr, List, [], ◌∷◌, map, arith, ◌==◌, length, filter, Bool-cases,
  All,
}
use trace_ux.Panel.Announcements.{
  Item, Announcement, precedes, insert, sort, without, allocate, read_if,
}

pub insert_all :
    (P : Announcement → Type 0) (a : Announcement) (bs : List Announcement)
    → P a
    → All P bs
    → All P (insert a bs)
unfolding insert
insert_all P a [] p v = (p, tt)
insert_all P a (b ∷ bs) p v = elim (Bool-cases (precedes b.item a.item)) [
  | inl e ↦ rw e (v.0, insert_all P a bs p v.1)
  | inr e ↦ rw e (p, v)
]

pub sort_all : (P : Announcement → Type 0) (as' : List Announcement) → All P as' → All P (sort as')
unfolding sort
sort_all P [] v = tt
sort_all P (a ∷ as') v = insert_all P a (sort as') v.0 (sort_all P as' v.1)

-- What holds of all that stay.
pub without_all :
    (P : Announcement → Type 0) (n : ℕ) (as' : List Announcement)
    → All (λ b. P b ⊎ (b.item.id ≡ n)) as'
    → All P (without n as')
unfolding without filter
without_all P n [] v = tt
without_all P n (a ∷ as') v = elim (Bool-cases (a.item.id == n)) [
  | inl e ↦ rw e (without_all P n as' v.1)
  | inr e ↦
      let p : P a = elim v.0 [ inl x ↦ x | inr x ↦ absurd (ground (arith, e, x)) ] in
      rw e (p, without_all P n as' v.1)
]

pub weaken :
    (P Q : Announcement → Type 0) (as' : List Announcement)
    → ((b : Announcement) → P b → Q b)
    → All P as'
    → All Q as'
weaken P Q [] f v = tt
weaken P Q (a ∷ as') f v = (f a v.0, weaken P Q as' f v.1)

pub allocate_older : (r : ℕ) (as' : List Item) → All (λ b. b.ref < r + length as') (allocate r as')
unfolding allocate
allocate_older r [] = tt
allocate_older r (a ∷ as') = (
  omega arith,
  weaken (λ b. b.ref < suc r + length as') (λ b. b.ref < r + suc (length as'))
      (allocate (suc r) as') (λ b h. omega (arith, h)) (allocate_older (suc r) as'),
)

pub read_older :
    (n r : ℕ) (as' : List Announcement)
    → All (λ b. b.ref < n) as'
    → All (λ b. b.ref < n) (map (read_if r) as')
read_older n r [] v = tt
read_older n r (a ∷ as') v = (ground (arith, v.0), read_older n r as' v.1)
