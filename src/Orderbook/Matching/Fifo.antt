-- ===== src/Orderbook/Matching/Fifo.antt =====
-- Time priority within a level. The loop of `Match` ranges over the array of the level's order IDs
-- while `RemoveOrder` shifts that array down, so a maker that is filled hides the one behind it.
use perp_dex.Base.{
  ◌≡◌, ◌∙◌, true, false, String, [], ◌∷◌, ◌++◌, some, arith, Bool-cases, inl, inr, same, same_comm,
  get_elem?,
}
use perp_dex.Base.Int.{◌<ℤ◌, int_laws}
use perp_dex.Base.Dict.{lookup, lookup-insert_self, lookup-insert_ne}
use perp_dex.Decimal.{zero_dec, is_zero, min_dec}
use perp_dex.Orderbook.Types.{Order, is_active, is_filled, remaining_qty, filled_by}
use perp_dex.Orderbook.Store.{Env, Market}
use perp_dex.Base.Outcome.{done}
use perp_dex.Orderbook.Matching.{Run, array, is_price_compatible, match_order, match_cells}
use perp_dex.Orderbook.Matching.Invariant.{Inv}
use perp_dex.Orderbook.Matching.Loops.{
  HasMarket, after_trade, match_order_settles, match_order_idle,
}
use perp_dex.Orderbook.Matching.Turns.{
  after_trade-cells, after_trade-orders, after_trade-remaining, after_trade-price,
  after_trade-makers, match_cells_turn, match_cells_stop, match_cells_end, remove_cell_first,
  remove_cell_third, filled_up, min_dec_of_left_over, filled_up_idle, makers,
}

-- Three makers of one level, the first and the third active, where the taker has more left than the
-- first has.
pub record ThreeMakers {P : Type 0} (s : Run P) (a b c : String) (oa oc : Order) : Type 0 where
  pub cells : s.cells ≡ record { ids = a ∷ b ∷ c ∷ []; behind = [] }
  pub a_ne_b : same a b ≡ false
  pub a_ne_c : same a c ≡ false
  pub b_ne_c : same b c ≡ false
  pub stored_a : lookup a s.store.orders ≡ some oa
  pub stored_c : lookup c s.store.orders ≡ some oc
  pub named_a : oa.order_id ≡ a
  pub named_c : oc.order_id ≡ c
  pub active_a : is_active oa ≡ true
  pub active_c : is_active oc ≡ true
  pub more : remaining_qty oa <ℤ s.result.remaining_qty

module _ {P : Type 0} (env : Env P) (o : Order) (s : Run P) (a b c : String) (oa oc : Order)
    (known : HasMarket env o) (v : Inv o s) (fits : is_price_compatible o s.price ≡ true)
    (three : ThreeMakers s a b c oa oc) where
  positive_a : zero_dec <ℤ remaining_qty oa
  positive_a = omega (int_laws, (v.sound a oa three.stored_a).unfilled three.active_a)

  positive_c : zero_dec <ℤ remaining_qty oc
  positive_c = omega (int_laws, (v.sound c oc three.stored_c).unfilled three.active_c)

  first_quantity : min_dec s.result.remaining_qty (remaining_qty oa) ≡ remaining_qty oa
  first_quantity = ground (arith, three.more)

  first_turn :
      (k : Market) × (match_order env a s ≡ done (after_trade env o a s oa k))
      × Inv o (after_trade env o a s oa k)
  first_turn =
      match_order_settles env o a s oa known v three.stored_a three.active_a fits
        (ground (arith, three.more, positive_a))

  -- After the first maker the array holds the second, the third, and the third again.
  first_cells :
      (k : Market)
      → (after_trade env o a s oa k).cells ≡ record { ids = b ∷ c ∷ []; behind = c ∷ [] }
  first_cells k =
      after_trade-cells env o a s oa k
      ∙ rw (first_quantity, filled_up oa, three.cells) (remove_cell_first a b c)

  first_left : (k : Market) → zero_dec <ℤ (after_trade env o a s oa k).result.remaining_qty
  first_left k =
      rw (after_trade-remaining env o a s oa k, first_quantity) (omega (int_laws, three.more))

  first_lookup :
      (k : Market) (j : String)
      → same a j ≡ false
      → lookup j (after_trade env o a s oa k).store.orders ≡ lookup j s.store.orders
  first_lookup k j ne =
      rw (after_trade-orders env o a s oa k, three.named_a)
        (lookup-insert_ne a j _ s.store.orders ne)

  third_cells :
      (s1 : Run P) (k : Market)
      → s1.cells ≡ record { ids = b ∷ c ∷ []; behind = c ∷ [] }
      → get_elem? (array (after_trade env o c s1 oc k).cells) 2 ≡ some c
  third_cells s1 k e =
      let q = min_dec s1.result.remaining_qty (remaining_qty oc) in
      rw (after_trade-cells env o c s1 oc k, e, remove_cell_third b c three.b_ne_c)
        (elim (Bool-cases (is_filled (filled_by q oc))) [ inl e' ↦ rw e' | inr e' ↦ rw e' ])

  third_idle :
      (s1 : Run P) (k : Market)
      → is_zero (after_trade env o c s1 oc k).result.remaining_qty ≡ false
      → is_active (filled_by (min_dec s1.result.remaining_qty (remaining_qty oc)) oc) ≡ false
  third_idle s1 k left =
      rw
        (min_dec_of_left_over s1.result.remaining_qty (remaining_qty oc)
          (rw (after_trade-remaining env o c s1 oc k) at left))
        (filled_up_idle oc positive_c (v.sound c oc three.stored_c).well_formed)

  third_last :
      (s1 : Run P) (k : Market)
      → s1.cells ≡ record { ids = b ∷ c ∷ []; behind = c ∷ [] }
      → lookup c s1.store.orders ≡ some oc
      → match_cells env 1 2 (after_trade env o c s1 oc k) ≡ done (after_trade env o c s1 oc k)
  third_last s1 k cells1 stored1 =
      let s2 : Run P = after_trade env o c s1 oc k in
      elim (Bool-cases (is_zero s2.result.remaining_qty)) [
        | inl z ↦ match_cells_stop env o 0 2 s2 z
        | inr left ↦
            match_cells_turn env o 0 2 c s2 s2 left (third_cells s1 k cells1) (
              match_order_idle env o c s2
                (filled_by (min_dec s1.result.remaining_qty (remaining_qty oc)) oc)
                (rw (after_trade-orders env o c s1 oc k, three.named_c)
                  (lookup-insert_self c _ s1.store.orders))
                (third_idle s1 k left))
            ∙ match_cells_end env o 3 s2
      ]

  -- The third maker comes next, and after it nothing of the array is left to trade with.
  third_turn :
      (s1 : Run P)
      → Inv o s1
      → is_price_compatible o s1.price ≡ true
      → s1.cells ≡ record { ids = b ∷ c ∷ []; behind = c ∷ [] }
      → zero_dec <ℤ s1.result.remaining_qty
      → lookup c s1.store.orders ≡ some oc
      → (k : Market) × (match_cells env 2 1 s1 ≡ done (after_trade env o c s1 oc k))
  third_turn s1 v1 fits1 cells1 left1 stored1 =
      let (k, run, _) =
        match_order_settles env o c s1 oc known v1 stored1 three.active_c fits1
          (ground (arith, left1)) in
      (
        k,
        match_cells_turn env o 1 1 c s1 _ (ground (arith, left1)) (rw cells1) run
            ∙ third_last s1 k cells1 stored1,
      )

  -- The loop over a level of three makers, of which the first and the third are active, by a taker
  -- that accepts the price and has more left than the first can fill, trades with the first, then
  -- with the third, and ends: the second is skipped, and stays in the store as it was.
  pub second_maker_skipped :
      (s' : Run P) × (match_cells env 3 0 s ≡ done s')
      × (makers env o s' ≡ (makers env o s ++ a ∷ []) ++ c ∷ [])
      × (lookup b s'.store.orders ≡ lookup b s.store.orders)
  second_maker_skipped =
      let (k, run, v1) = first_turn in
      let s1 : Run P = after_trade env o a s oa k in
      let (k', run') =
        third_turn s1 v1 (rw (after_trade-price env o a s oa k) fits) (first_cells k) (first_left k)
          (first_lookup k c three.a_ne_c ∙ three.stored_c) in
      (
        after_trade env o c s1 oc k',
        match_cells_turn env o 2 0 a s s1 (ground (arith, three.more, positive_a)) (rw three.cells)
              run
            ∙ run',
        rw (
          after_trade-makers env o c s1 oc k',
          after_trade-makers env o a s oa k,
          three.named_c,
          three.named_a,
        ),
        rw (after_trade-orders env o c s1 oc k', three.named_c)
            (lookup-insert_ne c b _ s1.store.orders (same_comm c b ∙ three.b_ne_c)
              ∙ first_lookup k b three.a_ne_b),
      )
