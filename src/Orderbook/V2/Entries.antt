-- ===== src/Orderbook/V2/Entries.antt =====
-- x/orderbook/keeper/orderbook_v2.go: the entries of a skip list, seen as the levels of a side in
-- x/orderbook/types/types.go.
use perp_dex.Base.{
  ◌≡◌, refl, sym, ap, ◌∙◌, subst, Bool, true, false, List, [], ◌∷◌, ◌++◌, none, some, Bool-cases,
  inl, inr, All, All-map, arith,
}
use perp_dex.Base.Int.{eq_of_parts}
use perp_dex.Decimal.{LegacyDec, equal}
use perp_dex.Orderbook.Level.{PriceLevel}
use perp_dex.Orderbook.Book.{has_level, update_level, insert_level, sort_by}
use perp_dex.Orderbook.Book.Sorted.{IsStrict, IsSorted, All-insert_level}
use perp_dex.Orderbook.V2.Levels.{some_inj}
use perp_dex.Orderbook.V2.{PriceLevelV2, Entry, value_at, put_at, to_price_level, to_levels}

-- Entries in strict order, each a level under its own price.
abbrev pub IsKeyed : (LegacyDec → LegacyDec → Bool) → List Entry → Type 0
IsKeyed before [] = Unit
IsKeyed before (e ∷ es) =
    (e.1.price ≡ e.0) × All (λ x. before e.0 x.0 ≡ true) es × IsKeyed before es

pub equal_eq : (a b : LegacyDec) → equal a b ≡ true → a ≡ b
equal_eq a b h = ground (arith, eq_of_parts a b)

pub none-some : {A : Type 0} (a : A) → none ≡ some a → ⊥
none-some a h = ground arith

pub some-none : {A : Type 0} (a : A) → some a ≡ none → ⊥
some-none a h = ground arith

pub value_at-head :
    (k p : LegacyDec) (w : PriceLevelV2) (es : List Entry)
    → equal k p ≡ true
    → value_at p ((k, w) ∷ es) ≡ some w
unfolding value_at
value_at-head k p w es e = rw e refl

pub value_at-tail :
    (k p : LegacyDec) (w : PriceLevelV2) (es : List Entry)
    → equal k p ≡ false
    → value_at p ((k, w) ∷ es) ≡ value_at p es
unfolding value_at
value_at-tail k p w es e = rw e refl

both : (b : Bool) → b ≡ false → b ≡ true → ⊥
both b h k = ground arith

pub equal_self : (a : LegacyDec) → equal a a ≡ true
equal_self a = ground arith

not_head :
    (p : LegacyDec) (m : PriceLevel) (ms : List PriceLevel)
    → has_level p (m ∷ ms) ≡ false
    → equal m.price p ≡ false
unfolding has_level
not_head p m ms h = ground arith

not_rest :
    (p : LegacyDec) (m : PriceLevel) (ms : List PriceLevel)
    → has_level p (m ∷ ms) ≡ false
    → has_level p ms ≡ false
unfolding has_level
not_rest p m ms h = ground arith

-- What holds of all keys holds of one that is found.
pub value_at-key :
    (P : LegacyDec → Type 0) (p : LegacyDec) (es : List Entry) (v : PriceLevelV2)
    → All (λ x. P x.0) es
    → value_at p es ≡ some v
    → P p
unfolding value_at
value_at-key P p [] v hs h = elim (none-some v h) [ ]
value_at-key P p ((k, w) ∷ es) v (hk, hs) h = elim (Bool-cases (equal k p)) [
  | inl e ↦ subst P (equal_eq k p e) hk
  | inr e ↦ value_at-key P p es v hs (sym (value_at-tail k p w es e) ∙ h)
]

module _ (before : LegacyDec → LegacyDec → Bool) (strict : IsStrict before) where
  -- A level that is found is put back changed.
  pub put_at-found :
      (p : LegacyDec) (es : List Entry) (v v' : PriceLevelV2) (g : PriceLevel → PriceLevel)
      → IsKeyed before es
      → value_at p es ≡ some v
      → to_price_level v' ≡ g (to_price_level v)
      → (to_levels (put_at before p v' es) ≡ update_level p g (to_levels es))
        × (has_level p (to_levels es) ≡ true)
  unfolding value_at put_at update_level has_level to_price_level
  put_at-found p [] v v' g k h hg = elim (none-some v h) [ ]
  put_at-found p ((q, w) ∷ es) v v' g (e, hb, k) h hg = elim (Bool-cases (equal q p)) [
    | inl c ↦
        let cw : equal w.price p ≡ true = ap (λ x. equal x p) e ∙ c in
        let vw : v ≡ w = some_inj v w (sym h ∙ value_at-head q p w es c) in
        rw (c, cw) (ap (λ x. x ∷ to_levels es) (hg ∙ ap (λ x. g (to_price_level x)) vw), refl)
    | inr c ↦
        let cw : equal w.price p ≡ false = ap (λ x. equal x p) e ∙ c in
        let h' = sym (value_at-tail q p w es c) ∙ h in
        let rest = put_at-found p es v v' g k h' hg in
        rw (c, cw, value_at-key (λ x. before q x ≡ true) p es v hb h')
          (ap (λ x. to_price_level w ∷ x) rest.0, rest.1)
  ]

  -- A level that is new is put where the insertion puts it.
  pub put_at-new :
      (p : LegacyDec) (es : List Entry) (v : PriceLevelV2)
      → IsKeyed before es
      → value_at p es ≡ none
      → v.price ≡ p
      → (to_levels (put_at before p v es) ≡ insert_level before (to_price_level v) (to_levels es))
        × (has_level p (to_levels es) ≡ false)
  unfolding value_at put_at insert_level has_level to_price_level
  put_at-new p [] v k h hv = (refl, refl)
  put_at-new p ((q, w) ∷ es) v (e, hb, k) h hv = elim (Bool-cases (equal q p)) [
    | inl c ↦ elim (some-none w (sym (value_at-head q p w es c) ∙ h)) [ ]
    | inr c ↦ elim (Bool-cases (before q p)) [
      | inl b ↦
          let cw : equal w.price p ≡ false = ap (λ x. equal x p) e ∙ c in
          let bw : before w.price v.price ≡ true =
            ap (λ x. before x v.price) e ∙ ap (before q) hv ∙ b in
          let rest = put_at-new p es v k (sym (value_at-tail q p w es c) ∙ h) hv in
          rw (c, cw, b, bw) (ap (λ x. to_price_level w ∷ x) rest.0, rest.1)
      | inr b ↦
          let cw : equal w.price p ≡ false = ap (λ x. equal x p) e ∙ c in
          let bw : before w.price v.price ≡ false =
            ap (λ x. before x v.price) e ∙ ap (before q) hv ∙ b in
          let rest = put_at-new p es v k (sym (value_at-tail q p w es c) ∙ h) hv in
          rw (c, cw, b, bw) (refl, rest.1)
    ]
  ]

  not_before : (a b : LegacyDec) → before a b ≡ true → before b a ≡ false
  not_before a b h = elim (Bool-cases (before b a)) [
    | inr e ↦ e
    | inl e ↦ elim (both (equal a a) (strict.apart a a (strict.trans a b a h e)) (equal_self a)) [ ]
  ]

  levels-All :
      (q r : LegacyDec) (e : r ≡ q) (es : List Entry)
      → All (λ x. before q x.0 ≡ true) es
      → IsKeyed before es
      → All (λ l. before r l.price ≡ true) (to_levels es)
  unfolding to_price_level
  levels-All q r e [] h k = tt
  levels-All q r e ((k, w) ∷ es) (h, hs) (ek, _, ks) =
      (ap (λ x. before x w.price) e ∙ ap (before q) ek ∙ h, levels-All q r e es hs ks)

  pub IsKeyed-IsSorted : (es : List Entry) → IsKeyed before es → IsSorted before (to_levels es)
  unfolding to_price_level
  IsKeyed-IsSorted [] k = tt
  IsKeyed-IsSorted ((q, w) ∷ es) (e, hb, k) =
      (levels-All q w.price e es hb k, IsKeyed-IsSorted es k)

  insert_first :
      (l : PriceLevel) (ls : List PriceLevel)
      → All (λ m. before l.price m.price ≡ true) ls
      → insert_level before l ls ≡ l ∷ ls
  unfolding insert_level
  insert_first l [] h = refl
  insert_first l (m ∷ ms) (h, hs) = rw (not_before l.price m.price h) refl

  pub sort_by-IsSorted_eq : (ls : List PriceLevel) → IsSorted before ls → sort_by before ls ≡ ls
  unfolding sort_by
  sort_by-IsSorted_eq [] s = refl
  sort_by-IsSorted_eq (l ∷ ls) (h, s) =
      ap (insert_level before l) (sort_by-IsSorted_eq ls s) ∙ insert_first l ls h

  -- Two insertions, of a level that comes before all of a list and of one with another price.
  insert_swap :
      (l n : PriceLevel) (ls : List PriceLevel)
      → All (λ m. before l.price m.price ≡ true) ls
      → equal l.price n.price ≡ false
      → insert_level before l (insert_level before n ls) ≡ insert_level before n (l ∷ ls)
  unfolding insert_level
  insert_swap l n ls h hn = elim (Bool-cases (before l.price n.price)) [
    | inl b ↦ rw b (
        insert_first l (insert_level before n ls)
          (All-insert_level before (λ x. before l.price x ≡ true) n ls b h))
    | inr b ↦
        let first = strict.total l.price n.price hn b in
        rw
          (
            b,
            insert_first n ls
                (All-map _ _ ls (λ m k. strict.trans n.price l.price m.price first k) h),
          )
          (rw (first, insert_first l ls h) refl)
  ]

  pub sort_by-append :
      (n : PriceLevel) (ls : List PriceLevel)
      → IsSorted before ls
      → has_level n.price ls ≡ false
      → sort_by before (ls ++ n ∷ []) ≡ insert_level before n ls
  unfolding sort_by has_level
  sort_by-append n [] s h = refl
  sort_by-append n (l ∷ ls) (hl, s) h =
      ap (insert_level before l) (sort_by-append n ls s (not_rest n.price l ls h))
      ∙ insert_swap l n ls hl (not_head n.price l ls h)

  -- A change of the level that was inserted.
  pub update_level-insert :
      (p : LegacyDec) (g : PriceLevel → PriceLevel) (n : PriceLevel) (ls : List PriceLevel)
      → n.price ≡ p
      → (g n).price ≡ n.price
      → has_level p ls ≡ false
      → update_level p g (insert_level before n ls) ≡ insert_level before (g n) ls
  unfolding update_level insert_level has_level
  update_level-insert p g n [] hn hg h = rw (ap (λ x. equal x p) hn ∙ equal_self p) refl
  update_level-insert p g n (m ∷ ms) hn hg h = elim (Bool-cases (before m.price n.price)) [
    | inl b ↦
        let c : equal m.price p ≡ false = not_head p m ms h in
        rw (b, ap (before m.price) hg ∙ b)
          (rw c (ap (λ x. m ∷ x) (update_level-insert p g n ms hn hg (not_rest p m ms h))))
    | inr b ↦ rw (b, ap (before m.price) hg ∙ b) (rw (ap (λ x. equal x p) hn ∙ equal_self p) refl)
  ]
