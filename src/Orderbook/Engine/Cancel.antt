-- ===== src/Orderbook/Engine/Cancel.antt =====
-- `CancelOrder`: an order is cancelled once.
use perp_dex.Base.{◌≡◌, refl, ◌∙◌, true, String, some, same_self}
use perp_dex.Base.Dict.{lookup-insert_self}
use perp_dex.Orderbook.Result.{ok, err, order_not_active}
use perp_dex.Orderbook.Types.{Order, is_active, cancel}
use perp_dex.Orderbook.Store.{Env, State, get_order, set_order}
use perp_dex.Orderbook.Engine.{take_off_book, cancel_order, keeper_cancel_order}

module _ {P : Type 0} (env : Env P) (trader id : String) (o : Order) where
  keeper_cancel_order_own :
      (s : State P)
      → get_order id s ≡ some o
      → o.trader ≡ trader
      → keeper_cancel_order env trader id s ≡ cancel_order env id s
  unfolding keeper_cancel_order
  keeper_cancel_order_own s found own =
      rw (found, keeper_cancel_order) (rw (own, same_self trader) refl)

  cancel_order_active :
      (s : State P)
      → get_order id s ≡ some o
      → is_active o ≡ true
      → cancel_order env id s ≡ ok (cancel o, set_order (cancel o) (take_off_book env o s))
  unfolding cancel_order
  cancel_order_active s found active = rw (found, cancel_order) (rw active refl)

  stored_cancelled :
      (s : State P) → o.order_id ≡ id → get_order id (set_order (cancel o) s) ≡ some (cancel o)
  unfolding cancel
  stored_cancelled s named = rw (← named) (lookup-insert_self o.order_id (cancel o) s.orders)

module _ {P : Type 0} (env : Env P) (trader id : String) (o : Order) where
  cancel_order_idle :
      (s : State P)
      → get_order id s ≡ some (cancel o)
      → cancel_order env id s ≡ err order_not_active
  unfolding cancel_order cancel
  cancel_order_idle s found = rw (found, cancel_order) refl

  cancel_trader : (cancel o).trader ≡ o.trader
  unfolding cancel
  cancel_trader = refl

  -- `CancelOrder` by the trader of an active order, which is stored under its own ID, succeeds and
  -- stores the order as cancelled; a second cancellation of it is refused.
  pub cancel_once :
      (s : State P)
      → get_order id s ≡ some o
      → o.order_id ≡ id
      → o.trader ≡ trader
      → is_active o ≡ true
      → (s' : State P) × (keeper_cancel_order env trader id s ≡ ok (cancel o, s'))
        × (get_order id s' ≡ some (cancel o))
        × (keeper_cancel_order env trader id s' ≡ err order_not_active)
  cancel_once s found named own active =
      let s' = set_order (cancel o) (take_off_book env o s) in
      let stored = stored_cancelled env trader id o (take_off_book env o s) named in
      (
        s',
        keeper_cancel_order_own env trader id o s found own
            ∙ cancel_order_active env trader id o s found active,
        stored,
        keeper_cancel_order_own env trader id (cancel o) s' stored (cancel_trader ∙ own)
            ∙ cancel_order_idle s' stored,
      )
