-- ===== src/Book/Unlink.antt =====
-- A level taken out of the list: the links are those of the list without it.
use bitmex_market_maker.Base.{
  ℕ, ◌≡◌, Bool, true, inl, inr, List, [], ◌∷◌, arith, ◌==◌, if◌then◌else◌, mem, Bool-cases,
}
use bitmex_market_maker.Book.{Ptr, null, cell_at, Level}
use bitmex_market_maker.Book.Sorted.{IsStrict, IsSorted, erase, ne_of_better, better_of_mem}
use bitmex_market_maker.Book.Linked.{
  points, BackLink, Linked, Outside, Linked-frame, child_in_list, not_points_head,
}

-- The links `d` that the writes make of `c`: the neighbours `w` and `(c x).parent` of `x` are
-- joined.
pub record Unlinked (x w : ℕ) (c d : ℕ → Level) : Type 0 where
  pub behind : (c x).child ≡ cell_at w
  pub parents :
      (i : ℕ)
      → (d i).parent ≡ (if i == x then null else if i == w then (c x).parent else (c i).parent)
  pub children :
      (i : ℕ)
      → (d i).child
        ≡ (if i == x then null else if points (c x).parent i then cell_at w else (c i).child)

cell_at-injective : (a b : ℕ) {p : Ptr} → p ≡ cell_at a → p ≡ cell_at b → a ≡ b
cell_at-injective a b h k = ground arith

module _ {better : ℕ → ℕ → Bool} (order : IsStrict better) (c d : ℕ → Level) (bottom : Ptr)
    (x w : ℕ) (u : Unlinked x w c d) where
  Unlinked-next :
      (y z : ℕ) (zs : List ℕ)
      → z ≡ x
      → w ≡ y
      → IsSorted better (y ∷ z ∷ zs)
      → Linked c bottom (z ∷ zs)
      → BackLink d y zs × Linked d bottom zs
  Unlinked-next y z [] z=x w=y s l = (tt, tt)
  Unlinked-next y z (v ∷ vs) z=x w=y s l = (
    ground (arith, u.children v, ne_of_better order z v s.1.0.0),
    Linked-frame c d bottom v vs
        (λ i m. ground (
          arith,
          u.parents i,
          better_of_mem order z i (v ∷ vs) s.1.0 m,
          ne_of_better order z i,
          better_of_mem order y i (v ∷ vs) s.0.1 m,
          ne_of_better order y i,
        ))
        (λ i m. ground (
          arith,
          u.children i,
          better_of_mem order z i (v ∷ vs) s.1.0 (ground arith),
          ne_of_better order z i,
          better_of_mem order v i vs s.1.1.0 m,
          ne_of_better order v i,
        ))
        l.2,
  )

  pub Unlinked-Linked :
      (y : ℕ) (ys : List ℕ)
      → IsSorted better (y ∷ ys)
      → Outside bottom (y ∷ ys)
      → mem x ys ≡ true
      → Linked c bottom (y ∷ ys)
      → Linked d bottom (y ∷ erase x ys)
  Unlinked-Linked y [] s out m l = ground arith
  Unlinked-Linked y (z ∷ zs) s out m l = elim (Bool-cases (z == x)) [
    | inl e ↦
        let z=x : z ≡ x = ground arith in
        let w=y : w ≡ y = cell_at-injective w y u.behind (rw z=x at l.1) in
        let next = Unlinked-next y z zs z=x w=y s l.2 in
        rw e (ground (arith, u.parents y, ne_of_better order y z s.0.0), next.0, next.1)
    | inr n ↦
        let k : mem x zs ≡ true = ground arith in
        let (e, at_e, in_e) = child_in_list c bottom x z zs l.2 k in
        let w=e : w ≡ e = cell_at-injective w e u.behind at_e in
        let not_head =
          not_points_head order c bottom x z zs s.1 (λ i k. out i (ground arith)) l.2
            (ground arith) in
        rw n (
          ground (
            arith,
            u.parents y,
            better_of_mem order y e (z ∷ zs) s.0 in_e,
            ne_of_better order y e,
            better_of_mem order y x (z ∷ zs) s.0,
            ne_of_better order y x,
          ),
          ground (arith, u.children z),
          Unlinked-Linked z zs s.1 (λ i k. out i (ground arith)) k l.2,
        )
  ]
