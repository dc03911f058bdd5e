-- ===== src/Orderbook/Book/Sorted.antt =====
-- A side of the book in strict price order, which is what the sort of `sortLevels` gives for levels
-- of distinct prices.
use perp_dex.Base.{
  ◌≡◌, refl, ◌∙◌, true, false, Bool, List, [], ◌∷◌, ◌++◌, arith, Bool-cases, inl, inr, All, All-map,
}
use perp_dex.Decimal.{LegacyDec, gt, lt, equal}
use perp_dex.Orderbook.Level.{PriceLevel, new_price_level}
use perp_dex.Orderbook.Book.Listed.{has_level-sort_by}
use perp_dex.Orderbook.Book.{has_level, insert_level, sort_by}

-- A strict order on prices that decides.
pub record IsStrict (before : LegacyDec → LegacyDec → Bool) : Type 0 where
  pub trans : (a b c : LegacyDec) → before a b ≡ true → before b c ≡ true → before a c ≡ true
  pub total : (a b : LegacyDec) → equal a b ≡ false → before a b ≡ false → before b a ≡ true
  pub apart : (a b : LegacyDec) → before a b ≡ true → equal b a ≡ false

pub gt-IsStrict : IsStrict gt
gt-IsStrict = record {
  trans = λ a b c h k. ground arith;
  total = λ a b h k. ground arith;
  apart = λ a b h. ground arith;
}

pub lt-IsStrict : IsStrict lt
lt-IsStrict = record {
  trans = λ a b c h k. ground arith;
  total = λ a b h k. ground arith;
  apart = λ a b h. ground arith;
}

-- No two levels have one price.
abbrev pub IsDistinct : List PriceLevel → Type 0
IsDistinct [] = Unit {0}
IsDistinct (l ∷ ls) = (has_level l.price ls ≡ false) × IsDistinct ls

has_level-append_new :
    (q p : LegacyDec) (ls : List PriceLevel)
    → has_level q ls ≡ false
    → equal p q ≡ false
    → has_level q (ls ++ new_price_level p ∷ []) ≡ false
unfolding has_level new_price_level
has_level-append_new q p [] h e = rw e
has_level-append_new q p (l ∷ ls) h e = ground (arith, has_level-append_new q p ls)

pub IsDistinct-append_new :
    (p : LegacyDec) (ls : List PriceLevel)
    → has_level p ls ≡ false
    → IsDistinct ls
    → IsDistinct (ls ++ new_price_level p ∷ [])
unfolding has_level new_price_level
IsDistinct-append_new p [] h d = (refl, tt)
IsDistinct-append_new p (l ∷ ls) h (d, ds) = (
  has_level-append_new l.price p ls d (ground arith),
  IsDistinct-append_new p ls (ground arith) ds,
)

module _ (before : LegacyDec → LegacyDec → Bool) where
  -- Every level comes strictly before those behind it.
  abbrev pub IsSorted : List PriceLevel → Type 0
  IsSorted [] = Unit {0}
  IsSorted (l ∷ ls) = All (λ m. before l.price m.price ≡ true) ls × IsSorted ls

  pub All-insert_level :
      (P : LegacyDec → Type 0) (l : PriceLevel) (ls : List PriceLevel)
      → P l.price
      → All (λ m. P m.price) ls
      → All (λ m. P m.price) (insert_level before l ls)
  unfolding insert_level
  All-insert_level P l [] h hs = (h, tt)
  All-insert_level P l (m ∷ ms) h (hm, hs) = elim (Bool-cases (before m.price l.price)) [
    | inl e ↦ rw (e, insert_level) (hm, All-insert_level P l ms h hs)
    | inr e ↦ rw (e, insert_level) (h, (hm, hs))
  ]

  module _ (strict : IsStrict before) where
    insert_level-IsSorted :
        (l : PriceLevel) (ls : List PriceLevel)
        → has_level l.price ls ≡ false
        → IsSorted ls
        → IsSorted (insert_level before l ls)
    unfolding insert_level has_level
    insert_level-IsSorted l [] h s = (tt, tt)
    insert_level-IsSorted l (m ∷ ms) h (hm, hs) = elim (Bool-cases (before m.price l.price)) [
      | inl e ↦
          rw (e, insert_level)
            (
              All-insert_level (λ p. before m.price p ≡ true) l ms e hm,
              insert_level-IsSorted l ms (ground arith) hs,
            )
      | inr e ↦
          let first = strict.total m.price l.price (ground arith) e in
          rw (e, insert_level)
            (
              (first, All-map _ _ ms (λ x k. strict.trans l.price m.price x.price first k) hm),
              (hm, hs),
            )
    ]

    -- The sort puts levels of distinct prices in strict order.
    pub sort_by-IsSorted : (ls : List PriceLevel) → IsDistinct ls → IsSorted (sort_by before ls)
    unfolding sort_by
    sort_by-IsSorted [] d = tt
    sort_by-IsSorted (l ∷ ls) (d, ds) =
        insert_level-IsSorted l (sort_by before ls) (has_level-sort_by before l.price ls ∙ d)
          (sort_by-IsSorted ls ds)

    IsSorted-has_level :
        (p : LegacyDec) (ls : List PriceLevel)
        → All (λ m. before p m.price ≡ true) ls
        → has_level p ls ≡ false
    unfolding has_level
    IsSorted-has_level p [] hs = refl
    IsSorted-has_level p (m ∷ ms) (h, hs) =
        rw (strict.apart p m.price h) (IsSorted-has_level p ms hs)

    pub IsSorted-IsDistinct : (ls : List PriceLevel) → IsSorted ls → IsDistinct ls
    IsSorted-IsDistinct [] s = tt
    IsSorted-IsDistinct (l ∷ ls) (h, hs) =
        (IsSorted-has_level l.price ls h, IsSorted-IsDistinct ls hs)
