-- ===== src/Orderbook/V2/Btree/Backwards.antt =====
-- x/orderbook/keeper/orderbook_btree.go: the bids, which the tree keeps from the lowest price to the
-- highest, and the book reads from the highest to the lowest.
use perp_dex.Base.{
  ◌≡◌, refl, ap, ◌∙◌, true, false, List, [], ◌∷◌, ◌++◌, some, arith, if◌then◌else◌, Bool-cases, inl,
  inr, All, All-map, All-append,
}
use perp_dex.Decimal.{LegacyDec, gt, lt, equal}
use perp_dex.Orderbook.V2.{PriceLevelV2, Entry, value_at, put_at, drop_at}
use perp_dex.Orderbook.V2.Entries.{IsKeyed}
use perp_dex.Orderbook.V2.Btree.{backwards}

-- All keys of the list lie above `k`.
abbrev Above : LegacyDec → List Entry → Type 0
Above k xs = All (λ x. gt x.0 k ≡ true) xs

abbrev last_put : LegacyDec → PriceLevelV2 → LegacyDec → PriceLevelV2 → List Entry → List Entry
last_put p v k w xs =
    if equal k p
    then xs ++ (p, v) ∷ []
    else if lt k p
    then put_at gt p v xs ++ (k, w) ∷ []
    else (xs ++ (k, w) ∷ []) ++ (p, v) ∷ []

first_equal :
    (j k p : LegacyDec) → gt j k ≡ true → equal j p ≡ true → (equal k p ≡ false) × (lt k p ≡ true)
first_equal j k p h e = ground arith

first_below :
    (j k p : LegacyDec)
    → gt j k ≡ true
    → equal j p ≡ false
    → gt j p ≡ false
    → (equal k p ≡ false) × (lt k p ≡ true)
first_below j k p h e g = ground arith

above_not : (k p : LegacyDec) → equal k p ≡ false → lt k p ≡ true → gt k p ≡ false
above_not k p e l = ground arith

above_is : (k p : LegacyDec) → equal k p ≡ false → lt k p ≡ false → gt k p ≡ true
above_is k p e l = ground arith

put_at-last_put :
    (p : LegacyDec) (v : PriceLevelV2) (k : LegacyDec) (w : PriceLevelV2) (xs : List Entry)
    → Above k xs
    → put_at gt p v (xs ++ (k, w) ∷ []) ≡ last_put p v k w xs
unfolding put_at
put_at-last_put p v k w [] h = elim (Bool-cases (equal k p)) [
  | inl e ↦ rw e refl
  | inr e ↦ rw e (elim (Bool-cases (lt k p)) [
    | inl l ↦ rw (l, above_not k p e l) refl
    | inr l ↦ rw (l, above_is k p e l) refl
  ])
]
put_at-last_put p v k w ((j, u) ∷ xs) (h, hs) = elim (Bool-cases (equal j p)) [
  | inl e ↦ let f = first_equal j k p h e in rw (e, f.0, f.1) refl
  | inr e ↦ elim (Bool-cases (gt j p)) [
    | inl g ↦
        rw (e, g, put_at-last_put p v k w xs hs)
          (elim (Bool-cases (equal k p)) [
            | inl a ↦ rw a refl
            | inr a ↦ elim (Bool-cases (lt k p)) [ inl b ↦ rw (a, b) refl | inr b ↦ rw (a, b) refl ]
          ])
    | inr g ↦ let f = first_below j k p h e g in rw (e, g, f.0, f.1) refl
  ]
]

value_at-last :
    (p k : LegacyDec) (w : PriceLevelV2) (xs : List Entry)
    → Above k xs
    → value_at p (xs ++ (k, w) ∷ []) ≡ (if equal k p then some w else value_at p xs)
unfolding value_at
value_at-last p k w [] h = refl
value_at-last p k w ((j, u) ∷ xs) (h, hs) = elim (Bool-cases (equal j p)) [
  | inl e ↦ let f = first_equal j k p h e in rw (e, f.0) refl
  | inr e ↦ rw (e, value_at-last p k w xs hs) refl
]

drop_at-last :
    (p k : LegacyDec) (w : PriceLevelV2) (xs : List Entry)
    → Above k xs
    → drop_at p (xs ++ (k, w) ∷ []) ≡ (if equal k p then xs else drop_at p xs ++ (k, w) ∷ [])
unfolding drop_at
drop_at-last p k w [] h = refl
drop_at-last p k w ((j, u) ∷ xs) (h, hs) = elim (Bool-cases (equal j p)) [
  | inl e ↦ let f = first_equal j k p h e in rw (e, f.0) refl
  | inr e ↦
      rw (e, drop_at-last p k w xs hs)
        (elim (Bool-cases (equal k p)) [ inl a ↦ rw a refl | inr a ↦ rw a refl ])
]

All-backwards : (P : Entry → Type 0) (es : List Entry) → All P es → All P (backwards es)
unfolding backwards
All-backwards P [] h = tt
All-backwards P (e ∷ es) (h, hs) =
    All-append P (backwards es) (e ∷ []) (All-backwards P es hs) (h, tt)

turn : (a b : LegacyDec) → lt a b ≡ true → gt b a ≡ true
turn a b h = ground arith

above : (k : LegacyDec) (es : List Entry) → All (λ x. lt k x.0 ≡ true) es → Above k (backwards es)
above k es h = All-backwards _ es (All-map _ _ es (λ x. turn k x.0) h)

pub value_at-backwards :
    (p : LegacyDec) (es : List Entry) → IsKeyed lt es → value_at p (backwards es) ≡ value_at p es
unfolding backwards value_at
value_at-backwards p [] k = refl
value_at-backwards p ((q, w) ∷ es) (e, hb, k) =
    rw (value_at-last p q w (backwards es) (above q es hb), value_at-backwards p es k) refl

pub put_at-backwards :
    (p : LegacyDec) (v : PriceLevelV2) (es : List Entry)
    → IsKeyed lt es
    → put_at gt p v (backwards es) ≡ backwards (put_at lt p v es)
unfolding backwards put_at
put_at-backwards p v [] k = refl
put_at-backwards p v ((q, w) ∷ es) (e, hb, k) =
    put_at-last_put p v q w (backwards es) (above q es hb) ∙ elim (Bool-cases (equal q p)) [
      | inl a ↦ rw a refl
      | inr a ↦ elim (Bool-cases (lt q p)) [
        | inl b ↦ rw (a, b) (ap (λ x. x ++ (q, w) ∷ []) (put_at-backwards p v es k))
        | inr b ↦ rw (a, b) refl
      ]
    ]

pub drop_at-backwards :
    (p : LegacyDec) (es : List Entry)
    → IsKeyed lt es
    → drop_at p (backwards es) ≡ backwards (drop_at p es)
unfolding backwards drop_at
drop_at-backwards p [] k = refl
drop_at-backwards p ((q, w) ∷ es) (e, hb, k) =
    drop_at-last p q w (backwards es) (above q es hb) ∙ elim (Bool-cases (equal q p)) [
      | inl a ↦ rw a refl
      | inr a ↦ rw a (ap (λ x. x ++ (q, w) ∷ []) (drop_at-backwards p es k))
    ]
