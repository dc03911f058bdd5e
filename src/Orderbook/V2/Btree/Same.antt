-- ===== src/Orderbook/V2/Btree/Same.antt =====
-- x/orderbook/keeper/orderbook_btree.go and orderbook_v2.go: one step on a side of both books.
use perp_dex.Base.{
  ◌≡◌, refl, sym, ap, ◌∙◌, subst, Bool, true, false, String, List, [], ◌∷◌, if◌then◌else◌,
  Bool-cases, Option-cases, inl, inr,
}
use perp_dex.Decimal.{LegacyDec, gt, lt, equal}
use perp_dex.Orderbook.Types.{Order}
use perp_dex.Orderbook.Book.Sorted.{lt-IsStrict}
use perp_dex.Orderbook.V2.{
  PriceLevelV2, Entry, SkipLists, IsOrderedMap, value_at, put_at, drop_at, add_to, level_or_new,
  new_level, remove_from, has_none, front, add_to_side, remove_from_side,
}
use perp_dex.Orderbook.V2.Entries.{IsKeyed, equal_self}
use perp_dex.Orderbook.V2.Sides.{put_at-IsKeyed, drop_at-IsKeyed}
use perp_dex.Orderbook.V2.Orders.{
  value_at-price, price-added, price-remove_from, entries-add_to_side,
}
use perp_dex.Orderbook.V2.Btree.{
  backwards, Trees, IsOrderedSet, BtreeSide, get_level, set_level, get_or_create, remove_level,
  best, iterate, add_to_tree, remove_from_tree,
}
use perp_dex.Orderbook.V2.Btree.Backwards.{value_at-backwards, put_at-backwards, drop_at-backwards}

-- The order of a side, and the entries of a tree in that order.
abbrev pub order : Bool → LegacyDec → LegacyDec → Bool
order true = gt
order false = lt

abbrev pub view : Bool → List Entry → List Entry
view true es = backwards es
view false es = es

value_at-view :
    (d : Bool) (p : LegacyDec) (es : List Entry)
    → IsKeyed lt es
    → value_at p (view d es) ≡ value_at p es
value_at-view true p es k = value_at-backwards p es k
value_at-view false p es k = refl

put_at-view :
    (d : Bool) (p : LegacyDec) (v : PriceLevelV2) (es : List Entry)
    → IsKeyed lt es
    → put_at (order d) p v (view d es) ≡ view d (put_at lt p v es)
put_at-view true p v es k = put_at-backwards p v es k
put_at-view false p v es k = refl

drop_at-view :
    (d : Bool) (p : LegacyDec) (es : List Entry)
    → IsKeyed lt es
    → drop_at p (view d es) ≡ view d (drop_at p es)
drop_at-view true p es k = drop_at-backwards p es k
drop_at-view false p es k = refl

-- The second of two writes under one key stays.
put_at-put_at :
    (before : LegacyDec → LegacyDec → Bool) (p : LegacyDec) (v w : PriceLevelV2) (es : List Entry)
    → put_at before p v (put_at before p w es) ≡ put_at before p v es
unfolding put_at
put_at-put_at before p v w [] = rw (equal_self p) refl
put_at-put_at before p v w ((k, u) ∷ es) = elim (Bool-cases (equal k p)) [
  | inl e ↦ rw (e, equal_self p) refl
  | inr e ↦ elim (Bool-cases (before k p)) [
    | inl b ↦ rw (e, b) (rw (e, b) (ap (λ x. (k, u) ∷ x) (put_at-put_at before p v w es)))
    | inr b ↦ rw (e, b, equal_self p) refl
  ]
]

module _ (T : Trees) (set_laws : IsOrderedSet T) where
  -- A tree with an order more.
  add_to_tree-lem :
      (o : Order) (s : BtreeSide T)
      → ((add_to_tree T o s).desc ≡ s.desc)
        × (T.ascend (add_to_tree T o s).tree
            ≡ put_at lt o.price
                (add_to o (level_or_new o.price (value_at o.price (T.ascend s.tree))))
                (T.ascend s.tree))
  unfolding add_to_tree get_or_create get_level set_level
  add_to_tree-lem o s = elim (Option-cases (value_at o.price (T.ascend s.tree))) [
    | inl e ↦
        rw (set_laws.get_eq o.price s.tree, e, get_or_create)
          (
            refl,
            set_laws.insert_eq o.price (add_to o (new_level o.price)) _
                ∙ ap (put_at lt o.price (add_to o (new_level o.price)))
                    (set_laws.insert_eq o.price (new_level o.price) s.tree)
                ∙ put_at-put_at lt o.price (add_to o (new_level o.price)) (new_level o.price)
                    (T.ascend s.tree),
          )
    | inr (l, e) ↦
        rw (set_laws.get_eq o.price s.tree, e, get_or_create)
          (refl, set_laws.insert_eq o.price (add_to o l) s.tree)
  ]

  removed-lem :
      (b : Bool) (p : LegacyDec) (v : PriceLevelV2) (s : BtreeSide T)
      → ((if b then remove_level T p s else set_level T p v s).desc ≡ s.desc)
        × (T.ascend (if b then remove_level T p s else set_level T p v s).tree
            ≡ (if b then drop_at p (T.ascend s.tree) else put_at lt p v (T.ascend s.tree)))
  unfolding remove_level set_level
  removed-lem true p v s = (refl, set_laws.delete_eq p s.tree)
  removed-lem false p v s = (refl, set_laws.insert_eq p v s.tree)

  pub iterate-view :
      (d : Bool) (s : BtreeSide T) → s.desc ≡ d → iterate T s ≡ view d (T.ascend s.tree)
  unfolding iterate
  iterate-view true s h = rw h (set_laws.descend_eq s.tree)
  iterate-view false s h = rw h refl

  pub best-view :
      (d : Bool) (s : BtreeSide T) → s.desc ≡ d → best T s ≡ front (view d (T.ascend s.tree))
  unfolding best
  best-view true s h = rw h (set_laws.max_eq s.tree ∙ ap front (set_laws.descend_eq s.tree))
  best-view false s h = rw h (set_laws.min_eq s.tree)

module _ (T : Trees) (set_laws : IsOrderedSet T) (L : SkipLists) (laws : IsOrderedMap L) where
  -- A side over a tree has the entries of a side over a skip list.
  abbrev pub IsSame : (d : Bool) → BtreeSide T → L.Rep (order d) → Type 0
  IsSame d s r =
      (s.desc ≡ d) × ((view d (T.ascend s.tree) ≡ L.entries r) × IsKeyed lt (T.ascend s.tree))

  value-same :
      (d : Bool) (p : LegacyDec) (s : BtreeSide T) (r : L.Rep (order d))
      → IsSame d s r
      → value_at p (L.entries r) ≡ value_at p (T.ascend s.tree)
  value-same d p s r (hd, (h, k)) = ap (value_at p) (sym h) ∙ value_at-view d p (T.ascend s.tree) k

  pub add_to_tree-IsSame :
      (d : Bool) (o : Order) (s : BtreeSide T) (r : L.Rep (order d))
      → IsSame d s r
      → IsSame d (add_to_tree T o s) (add_to_side L o r)
  add_to_tree-IsSame d o s r (hd, (h, k)) =
      let es = T.ascend s.tree in
      let l = add_to o (level_or_new o.price (value_at o.price es)) in
      let t = add_to_tree-lem T set_laws o s in
      (
        t.0 ∙ hd,
        (
          ap (view d) t.1
              ∙ sym (put_at-view d o.price l es k)
              ∙ ap (put_at (order d) o.price l) h
              ∙ ap (λ x. put_at (order d) o.price (add_to o (level_or_new o.price x)) (L.entries r))
                  (sym (value-same d o.price s r (hd, (h, k))))
              ∙ sym (entries-add_to_side L laws o r),
          subst (IsKeyed lt) (sym t.1)
              (put_at-IsKeyed lt lt-IsStrict o.price l es (price-added lt o es k) k),
        ),
      )

  -- The change of a level that is found, or its removal.
  removed-IsSame :
      (b d : Bool) (p : LegacyDec) (v : PriceLevelV2) (s : BtreeSide T) (r : L.Rep (order d))
      → v.price ≡ p
      → IsSame d s r
      → IsSame d
          (if b then remove_level T p s else set_level T p v s)
          (if b then L.remove p r else L.set p v r)
  removed-IsSame true d p v s r hv (hd, (h, k)) =
      let t = removed-lem T set_laws true p v s in
      (
        t.0 ∙ hd,
        (
          ap (view d) t.1
              ∙ sym (drop_at-view d p (T.ascend s.tree) k)
              ∙ ap (drop_at p) h
              ∙ sym (laws.remove_eq p r),
          subst (IsKeyed lt) (sym t.1) (drop_at-IsKeyed lt p (T.ascend s.tree) k),
        ),
      )
  removed-IsSame false d p v s r hv (hd, (h, k)) =
      let t = removed-lem T set_laws false p v s in
      (
        t.0 ∙ hd,
        (
          ap (view d) t.1
              ∙ sym (put_at-view d p v (T.ascend s.tree) k)
              ∙ ap (put_at (order d) p v) h
              ∙ sym (laws.set_eq p v r),
          subst (IsKeyed lt) (sym t.1) (put_at-IsKeyed lt lt-IsStrict p v (T.ascend s.tree) hv k),
        ),
      )

  pub remove_from_tree-IsSame :
      (d : Bool) (id : String) (p : LegacyDec) (s : BtreeSide T) (r : L.Rep (order d))
      → IsSame d s r
      → IsSame d (remove_from_tree T id p s).0 (remove_from_side L id p r).0
        × ((remove_from_tree T id p s).1 ≡ (remove_from_side L id p r).1)
  unfolding remove_from_tree get_level remove_from_side
  remove_from_tree-IsSame d id p s r h = elim (Option-cases (value_at p (T.ascend s.tree))) [
    | inl e ↦
        rw (set_laws.get_eq p s.tree, e, remove_from_tree, remove_from_side)
          (rw (laws.get_eq p r, value-same d p s r h, e, remove_from_side) (h, refl))
    | inr (l, e) ↦
        rw (set_laws.get_eq p s.tree, e, remove_from_tree)
          (rw (laws.get_eq p r, value-same d p s r h, e, remove_from_side)
            (
              removed-IsSame (has_none (remove_from id l).0) d p (remove_from id l).0 s r
                  (price-remove_from id l ∙ value_at-price lt p (T.ascend s.tree) l h.1.1 e) h,
              refl,
            ))
  ]
