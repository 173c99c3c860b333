-- ===== src/Book/Splice.antt =====
-- A level linked in behind the last better one: the links are those of the sorted insertion.
use bitmex_market_maker.Base.{
  ℕ, ◌≡◌, Bool, false, inl, inr, List, [], ◌∷◌, arith, ◌==◌, if◌then◌else◌, mem, Bool-cases,
}
use bitmex_market_maker.Book.{Ptr, cell_at, Level}
use bitmex_market_maker.Book.Sorted.{
  IsStrict, IsSorted, sorted_insert, pred_of, ne_of_better, better_of_mem, pred_of-mem,
}
use bitmex_market_maker.Book.Linked.{points, Linked, Outside, Linked-frame, not_points_head}

-- The links `d` that the writes make of `c`: `x` between `w` and the old `parent` of `w`.
pub record Spliced (x w : ℕ) (c d : ℕ → Level) : Type 0 where
  pub parents :
      (i : ℕ)
      → (d i).parent ≡ (if i == w then cell_at x else if i == x then (c w).parent else (c i).parent)
  pub children :
      (i : ℕ)
      → (d i).child
        ≡ (if points (c w).parent i then cell_at x else if i == x then cell_at w else (c i).child)

module _ {better : ℕ → ℕ → Bool} (order : IsStrict better) (c d : ℕ → Level) (bottom : Ptr)
    (x : ℕ) where
  pub Spliced-Linked :
      (y : ℕ) (ys : List ℕ)
      → Spliced x (pred_of better x y ys) c d
      → IsSorted better (y ∷ ys)
      → Outside bottom (y ∷ ys)
      → points bottom x ≡ false
      → mem x (y ∷ ys) ≡ false
      → Linked c bottom (y ∷ ys)
      → Linked d bottom (y ∷ sorted_insert better x ys)
  Spliced-Linked y [] sp s out outx n l = ground (arith, sp.parents y, sp.parents x, sp.children x)
  Spliced-Linked y (z ∷ zs) sp s out outx n l = elim (Bool-cases (better z x)) [
    | inl b ↦
        let w = pred_of better x z zs in
        let m = pred_of-mem order x z zs in
        let sp' : Spliced x w c d = rw b at sp in
        rw b (
          ground (
            arith,
            sp'.parents y,
            better_of_mem order y w (z ∷ zs) s.0 m,
            ne_of_better order y w,
          ),
          ground (
            arith,
            sp'.children z,
            not_points_head order c bottom w z zs s.1 (λ i k. out i (ground arith)) l.2 m,
          ),
          Spliced-Linked z zs sp' s.1 (λ i k. out i (ground arith)) outx (ground arith) l.2,
        )
    | inr b ↦
        let sp' : Spliced x y c d = rw b at sp in
        rw b (
          ground (arith, sp'.parents y),
          ground (arith, sp'.children x),
          (
            ground (arith, sp'.parents x),
            ground (arith, sp'.children z),
            Linked-frame c d bottom z zs
                (λ i m. ground (
                  arith,
                  sp'.parents i,
                  better_of_mem order y i (z ∷ zs) s.0 m,
                  ne_of_better order y i,
                ))
                (λ i m. ground (
                  arith,
                  sp'.children i,
                  better_of_mem order z i zs s.1.0 m,
                  ne_of_better order z i,
                ))
                l.2,
          ),
        )
  ]
