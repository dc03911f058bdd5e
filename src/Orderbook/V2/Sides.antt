-- ===== src/Orderbook/V2/Sides.antt =====
-- x/orderbook/keeper/orderbook_v2.go: one side of the book, before and after an order is added or
-- removed.
use perp_dex.Base.{
  ◌≡◌, refl, sym, ap, ◌∙◌, subst, Bool, true, false, List, [], ◌∷◌, ◌++◌, none, some, if◌then◌else◌,
  Bool-cases, Option-cases, inl, inr, All, All-map,
}
use perp_dex.Decimal.{LegacyDec, equal}
use perp_dex.Orderbook.Types.{Order, remaining_qty}
use perp_dex.Orderbook.Level.{PriceLevel, new_price_level, add_to_level, remove_from_level}
use perp_dex.Orderbook.Book.{has_level, update_level, insert_level, sort_by, remove_from_levels}
use perp_dex.Orderbook.Book.Sorted.{IsStrict, IsSorted}
use perp_dex.Orderbook.V2.{
  PriceLevelV2, Entry, value_at, put_at, drop_at, to_price_level, to_levels, add_to, new_level,
  level_or_new, has_none,
}
use perp_dex.Orderbook.V2.Levels.{
  some_inj, to_price_level-add_to, to_price_level-new, has_none-is_empty,
}
use perp_dex.Orderbook.V2.Entries.{
  IsKeyed, equal_eq, none-some, some-none, value_at-head, value_at-tail, value_at-key, put_at-found,
  put_at-new, IsKeyed-IsSorted, sort_by-append, update_level-insert,
}

pub none_at : (p : LegacyDec) (v : PriceLevelV2) → value_at p [] ≡ some v → ⊥
unfolding value_at
none_at p v h = none-some v h

-- Every entry's level satisfies `Q`.
abbrev pub AllLevels : (PriceLevelV2 → Type 0) → List Entry → Type 0
AllLevels Q es = All (λ e. Q e.1) es

pub value_at-All :
    (Q : PriceLevelV2 → Type 0) (p : LegacyDec) (es : List Entry) (v : PriceLevelV2)
    → AllLevels Q es
    → value_at p es ≡ some v
    → Q v
unfolding value_at
value_at-All Q p [] v hs h = elim (none_at p v h) [ ]
value_at-All Q p ((k, w) ∷ es) v (hw, hs) h = elim (Bool-cases (equal k p)) [
  | inl e ↦ subst Q (some_inj w v (sym (value_at-head k p w es e) ∙ h)) hw
  | inr e ↦ value_at-All Q p es v hs (sym (value_at-tail k p w es e) ∙ h)
]

pub All-drop_at :
    (R : Entry → Type 0) (p : LegacyDec) (es : List Entry) → All R es → All R (drop_at p es)
unfolding drop_at
All-drop_at R p [] h = tt
All-drop_at R p ((k, v) ∷ es) (h, hs) = elim (Bool-cases (equal k p)) [
  | inl e ↦ rw e hs
  | inr e ↦ rw e (h, All-drop_at R p es hs)
]

price-add_new : (o : Order) → (add_to o (new_level o.price)).price ≡ o.price
unfolding add_to new_level
price-add_new o = refl

update_inserted :
    (before : LegacyDec → LegacyDec → Bool) (strict : IsStrict before) (o : Order)
    (ls : List PriceLevel)
    → IsSorted before ls
    → has_level o.price ls ≡ false
    → update_level o.price
        (add_to_level o.order_id (remaining_qty o))
        (sort_by before (ls ++ new_price_level o.price ∷ []))
      ≡ insert_level before (add_to_level o.order_id (remaining_qty o) (new_price_level o.price)) ls
unfolding new_price_level add_to_level
update_inserted before strict o ls s h =
    let n = new_price_level o.price in
    ap (update_level o.price (add_to_level o.order_id (remaining_qty o)))
      (sort_by-append before strict n ls s h)
    ∙ update_level-insert before strict o.price (add_to_level o.order_id (remaining_qty o)) n ls
        refl refl h

module _ (before : LegacyDec → LegacyDec → Bool) where
  pub All-put_at :
      (R : Entry → Type 0) (p : LegacyDec) (v : PriceLevelV2) (es : List Entry)
      → R (p, v)
      → All R es
      → All R (put_at before p v es)
  unfolding put_at
  All-put_at R p v [] hp h = (hp, tt)
  All-put_at R p v ((k, w) ∷ es) hp (h, hs) = elim (Bool-cases (equal k p)) [
    | inl e ↦ rw e (hp, hs)
    | inr e ↦ elim (Bool-cases (before k p)) [
      | inl b ↦ rw (e, b) (h, All-put_at R p v es hp hs)
      | inr b ↦ rw (e, b) (hp, (h, hs))
    ]
  ]

  pub drop_at-IsKeyed :
      (p : LegacyDec) (es : List Entry) → IsKeyed before es → IsKeyed before (drop_at p es)
  unfolding drop_at
  drop_at-IsKeyed p [] k = tt
  drop_at-IsKeyed p ((q, w) ∷ es) (e, hb, k) = elim (Bool-cases (equal q p)) [
    | inl c ↦ rw c k
    | inr c ↦ rw c (e, All-drop_at (λ x. before q x.0 ≡ true) p es hb, drop_at-IsKeyed p es k)
  ]

  module _ (strict : IsStrict before) where
    pub put_at-IsKeyed :
        (p : LegacyDec) (v : PriceLevelV2) (es : List Entry)
        → v.price ≡ p
        → IsKeyed before es
        → IsKeyed before (put_at before p v es)
    unfolding put_at
    put_at-IsKeyed p v [] hv k = (hv, tt, tt)
    put_at-IsKeyed p v ((q, w) ∷ es) hv (e, hb, k) = elim (Bool-cases (equal q p)) [
      | inl c ↦ rw c (hv, subst (λ x. All (λ y. before x y.0 ≡ true) es) (equal_eq q p c) hb, k)
      | inr c ↦ elim (Bool-cases (before q p)) [
        | inl b ↦
            rw (c, b)
              (e, All-put_at (λ x. before q x.0 ≡ true) p v es b hb, put_at-IsKeyed p v es hv k)
        | inr b ↦
            let first = strict.total q p c b in
            rw (c, b)
              (hv, (first, All-map _ _ es (λ x h. strict.trans p q x.0 first h) hb), (e, hb, k))
      ]
    ]

    -- An order more on a side, in either book.
    pub put_at-add :
        (o : Order) (es : List Entry)
        → IsKeyed before es
        → to_levels
            (put_at before o.price (add_to o (level_or_new o.price (value_at o.price es))) es)
          ≡ update_level o.price (add_to_level o.order_id (remaining_qty o)) (
              if has_level o.price (to_levels es)
              then to_levels es
              else sort_by before (to_levels es ++ new_price_level o.price ∷ []))
    put_at-add o es k = elim (Option-cases (value_at o.price es)) [
      | inl e ↦
          let new =
            put_at-new before strict o.price es (add_to o (new_level o.price)) k e
              (price-add_new o) in
          rw (e, new.1)
            (new.0
              ∙ ap (λ l. insert_level before l (to_levels es))
                  (to_price_level-add_to o (new_level o.price)
                    ∙ ap (add_to_level o.order_id (remaining_qty o)) (to_price_level-new o.price))
              ∙ sym (
                  update_inserted before strict o (to_levels es)
                    (IsKeyed-IsSorted before strict es k) new.1))
      | inr (l, e) ↦
          let found =
            put_at-found before strict o.price es l (add_to o l)
              (add_to_level o.order_id (remaining_qty o)) k e (to_price_level-add_to o l) in
          rw (e, found.1) found.0
    ]

    -- An order less.
    pub remove_from_levels-eq :
        (o : Order) (es : List Entry) (v v' : PriceLevelV2)
        → IsKeyed before es
        → value_at o.price es ≡ some v
        → to_price_level v' ≡ remove_from_level o.order_id (remaining_qty o) (to_price_level v)
        → to_levels (if has_none v' then drop_at o.price es else put_at before o.price v' es)
          ≡ remove_from_levels o.order_id (remaining_qty o) o.price (to_levels es)
    unfolding remove_from_levels put_at drop_at to_price_level
    remove_from_levels-eq o [] v v' k h hv = elim (none_at o.price v h) [ ]
    remove_from_levels-eq o ((q, w) ∷ es) v v' (e, hb, k) h hv =
        elim (Bool-cases (equal q o.price)) [
          | inl c ↦
              let vw : v ≡ w = some_inj v w (sym h ∙ value_at-head q o.price w es c) in
              let hw = sym (
                hv
                ∙ ap (λ x. remove_from_level o.order_id (remaining_qty o) (to_price_level x)) vw) in
              rw (ap (λ x. equal x o.price) e ∙ c) (
                rw (hw, sym (has_none-is_empty v'))
                  (elim (Bool-cases (has_none v')) [
                    | inl n ↦ rw (n, c) refl
                    | inr n ↦ rw (n, c) refl
                  ]))
          | inr c ↦
              let h' = sym (value_at-tail q o.price w es c) ∙ h in
              let rest = remove_from_levels-eq o es v v' k h' hv in
              rw (ap (λ x. equal x o.price) e ∙ c) (
                rw (sym rest) (elim (Bool-cases (has_none v')) [
                  | inl n ↦ rw (n, c) refl
                  | inr n ↦ rw (n, c, value_at-key (λ x. before q x ≡ true) o.price es v hb h') refl
                ]))
        ]

    pub remove_from_levels-none :
        (o : Order) (es : List Entry)
        → IsKeyed before es
        → value_at o.price es ≡ none
        → remove_from_levels o.order_id (remaining_qty o) o.price (to_levels es) ≡ to_levels es
    unfolding remove_from_levels to_price_level
    remove_from_levels-none o [] k h = refl
    remove_from_levels-none o ((q, w) ∷ es) (e, hb, k) h = elim (Bool-cases (equal q o.price)) [
      | inl c ↦ elim (some-none w (sym (value_at-head q o.price w es c) ∙ h)) [ ]
      | inr c ↦ rw (ap (λ x. equal x o.price) e ∙ c) (
          ap (λ x. to_price_level w ∷ x)
            (remove_from_levels-none o es k (sym (value_at-tail q o.price w es c) ∙ h)))
    ]
