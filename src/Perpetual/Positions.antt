-- ===== src/Perpetual/Positions.antt =====
-- x/perpetual/keeper/position.go and margin.go: opening, reducing and closing a position, and what
-- a trade does to it. Events are left out.
pub mod Fees
pub mod Calls
pub mod Signed
pub mod Open
pub mod Close
pub mod Net
use perp_dex.Base.{Bool, true, false, String, Option, none, some, not, ◌||◌, if◌then◌else◌}
use perp_dex.Base.Int.{◌+ℤ◌, ◌-ℤ◌}
use perp_dex.Base.Outcome.{Outcome, done, failed, panicked, ◌>>=◌}
use perp_dex.Decimal.{
  LegacyDec, zero_dec, new_dec_with_prec, gt, gte, lt, lte, is_zero, is_positive, is_negative,
  Rounding,
}
use perp_dex.Perpetual.Types.{
  PositionSide, Market, PriceInfo, same_side, Position, Account, new_position, price_diff,
  calculate_unrealized_pnl, add_size, reduce_size, can_afford, lock_margin, unlock_margin,
  maintenance_rate,
}
use perp_dex.Perpetual.Margin.{calculate_initial_margin, check_initial_margin}
use perp_dex.Perpetual.Store.{
  State, Call, get_market, get_position, set_position, delete_position, get_account, set_account,
  get_or_create_account, get_price, or_fail, or_panic, market_not_found, market_not_active,
  invalid_quantity, account_not_found, insufficient_margin, position_not_found,
  cannot_reduce_position,
}

-- The fee, taken from what the account has.
unfoldable pub take_fee : LegacyDec → Account → State → State
take_fee fee a s =
    if not (is_positive fee)
    then s
    else if lt a.balance fee
    then (if is_positive a.balance then set_account (record a { balance = zero_dec }) s else s)
    else set_account (record a { balance = a.balance -ℤ fee }) s

unfoldable pub deduct_fee : String → LegacyDec → State → State
unfolding take_fee
deduct_fee trader fee s = elim (get_account trader s) [ none ↦ s | some a ↦ take_fee fee a s ]

-- A buy opens a long position, a sell a short one.
unfoldable pub trade_side : Bool → PositionSide
trade_side buys = if buys then PositionSide.long else PositionSide.short

module _ (r : Rounding) where
  -- The account once a position's margin is released and its gain is paid.
  pay_out : LegacyDec → LegacyDec → Account → Account
  pay_out released pnl a =
      let a' = unlock_margin released a in record a' { balance = a'.balance +ℤ pnl }

  save_or_delete : String → String → Position → State → State
  save_or_delete trader market_id p s =
      if is_zero p.size then delete_position trader market_id s else set_position p s

  -- The margin that a reduction releases; at a size of zero the division panics.
  released_margin : LegacyDec → Position → Option LegacyDec
  released_margin size p =
      if is_zero p.size then none else some (r.quo (r.mul p.margin size) p.size)

  -- The end of `ReducePosition`, once the margin to release and the account are there.
  reduce_paid :
      String
      → String
      → LegacyDec
      → State
      → Position
      → PriceInfo
      → LegacyDec
      → Account
      → LegacyDec × State
  unfolding pay_out save_or_delete price_diff reduce_size
  reduce_paid trader market_id size s p price released a =
      let pnl = r.mul size (price_diff r p price.mark_price) in
      let p' : Position = reduce_size size p in
      let p'' : Position = record p' { margin = p'.margin -ℤ released } in
      (pnl, save_or_delete trader market_id p'' (set_account (pay_out released pnl a) s))

  reduce_at : String → String → LegacyDec → State → Position → PriceInfo → Call (LegacyDec × State)
  unfolding reduce_paid released_margin or_panic
  reduce_at trader market_id size s p price = do
    released ← or_panic (released_margin size p)
    a ← or_panic (get_account trader s)
    done (reduce_paid trader market_id size s p price released a)

  pub reduce_found : String → String → LegacyDec → State → Position → Call (LegacyDec × State)
  unfolding reduce_at or_fail
  reduce_found trader market_id size s p =
      if gt size p.size
      then failed (cannot_reduce_position, s)
      else (or_fail market_not_found s (get_price market_id s)
          >>= reduce_at trader market_id size s p)

  -- `ReducePosition`, with the realized gain.
  unfoldable pub reduce_position : String → String → LegacyDec → State → Call (LegacyDec × State)
  unfolding reduce_found or_fail
  reduce_position trader market_id size s =
      or_fail position_not_found s (get_position trader market_id s)
      >>= reduce_found trader market_id size s

  close_paid : String → String → LegacyDec → State → Position → Account → LegacyDec × State
  unfolding pay_out price_diff
  close_paid trader market_id price s p a =
      let pnl = r.mul p.size (price_diff r p price) in
      (pnl, delete_position trader market_id (set_account (pay_out p.margin pnl a) s))

  pub close_found : String → String → LegacyDec → State → Position → Call (LegacyDec × State)
  unfolding close_paid or_panic
  close_found trader market_id price s p = do
    a ← or_panic (get_account trader s)
    done (close_paid trader market_id price s p a)

  -- `ClosePosition`, with the realized gain.
  unfoldable pub close_position : String → String → LegacyDec → State → Call (LegacyDec × State)
  unfolding close_found or_fail
  close_position trader market_id price s =
      or_fail position_not_found s (get_position trader market_id s)
      >>= close_found trader market_id price s

  -- A call whose error is ignored.
  ignore_error : {A : Type 0} → Call (A × State) → Call State
  ignore_error (done (a, s)) = done s
  ignore_error (failed (e, s)) = done s
  ignore_error panicked = panicked

  -- The margin locked in the account as it was read, then the position saved.
  lock_and_save : LegacyDec → Account → Position → State → State
  lock_and_save required a p s = set_position p (set_account (lock_margin required a) s)

  -- `OpenPosition` where no position stands, and where one stands on the same side.
  open_new : Position → LegacyDec → Account → State → Call (Option Position × State)
  unfolding lock_and_save
  open_new p required a s = done (some p, lock_and_save required a p s)

  open_added : LegacyDec → Account → State → Position → Option Position × State
  unfolding lock_and_save
  open_added required a s p =
      let p' : Position = record p { margin = p.margin +ℤ required } in
      (some p', lock_and_save required a p' s)

  open_more :
      LegacyDec
      → LegacyDec
      → LegacyDec
      → Account
      → Position
      → State
      → Call (Option Position × State)
  unfolding open_added add_size or_panic
  open_more size price required a p s =
      or_panic (add_size r size price p) >>= λ p'. done (open_added required a s p')

  -- `OpenPosition` against a position of the other side: it is reduced, or closed and the rest
  -- opened. The account `a` is the one read before the close.
  open_against :
      String
      → String
      → PositionSide
      → LegacyDec
      → LegacyDec
      → LegacyDec
      → Account
      → Position
      → State
      → Call (Option Position × State)
  unfolding lock_and_save ignore_error reduce_position close_position new_position
      calculate_initial_margin
  open_against trader market_id side size price required a p s =
      if lte size p.size
      then (ignore_error (reduce_position trader market_id size s) >>= λ s'.
          done (get_position trader market_id s', s'))
      else (ignore_error (close_position trader market_id price s) >>= λ s'.
          let rest = size -ℤ p.size in
          let p' : Position =
            new_position r trader market_id side rest price
              (calculate_initial_margin r rest price) in
          done (some p', lock_and_save required a p' s'))

  -- `OpenPosition`, by the position that stands.
  open_existing :
      String
      → String
      → PositionSide
      → LegacyDec
      → LegacyDec
      → Account
      → State
      → Option Position
      → Call (Option Position × State)
  unfolding open_new open_more open_against calculate_initial_margin new_position
  open_existing trader market_id side size price a s none =
      let required = calculate_initial_margin r size price in
      open_new (new_position r trader market_id side size price required) required a s
  open_existing trader market_id side size price a s (some p) =
      let required = calculate_initial_margin r size price in
      if same_side p.side side
      then open_more size price required a p s
      else open_against trader market_id side size price required a p s

  -- `OpenPosition` after its checks.
  open_checked :
      String
      → String
      → PositionSide
      → LegacyDec
      → LegacyDec
      → State
      → Call (Option Position × State)
  unfolding open_existing get_or_create_account
  open_checked trader market_id side size price s =
      let (a, s') = get_or_create_account trader s in
      open_existing trader market_id side size price a s' (get_position trader market_id s)

  open_in_market :
      String
      → String
      → PositionSide
      → LegacyDec
      → LegacyDec
      → State
      → Market
      → Call (Option Position × State)
  unfolding open_checked check_initial_margin
  open_in_market trader market_id side size price s market =
      if not market.is_active
      then failed (market_not_active, s)
      else if is_zero size || is_negative size
      then failed (invalid_quantity, s)
      else (check_initial_margin r trader size price s
          >>= open_checked trader market_id side size price)

  -- `OpenPosition`
  unfoldable pub open_position :
      String
      → String
      → PositionSide
      → LegacyDec
      → LegacyDec
      → State
      → Call (Option Position × State)
  unfolding open_in_market or_fail
  open_position trader market_id side size price s =
      or_fail market_not_found s (get_market market_id s)
      >>= open_in_market trader market_id side size price s

  -- A trade against a position of the other side.
  trade_against :
      String → String → PositionSide → LegacyDec → LegacyDec → Position → State → Call State
  unfolding reduce_position close_position open_position
  trade_against trader market_id side size price p s =
      if lte size p.size
      then (reduce_position trader market_id size s >>= λ r. done r.1)
      else (close_position trader market_id price s >>= λ r.
          open_position trader market_id side (size -ℤ p.size) price r.1 >>= λ r'. done r'.1)

  -- `UpdatePositionFromTrade` before the fee, by the position that stands.
  update_existing :
      String → String → PositionSide → LegacyDec → LegacyDec → State → Option Position → Call State
  unfolding trade_against open_position
  update_existing trader market_id side size price s none =
      open_position trader market_id side size price s >>= λ r. done r.1
  update_existing trader market_id side size price s (some p) =
      if same_side p.side side
      then (open_position trader market_id side size price s >>= λ r. done r.1)
      else trade_against trader market_id side size price p s

  -- `UpdatePositionFromTrade`
  unfoldable pub update_position_from_trade :
      String → String → Bool → LegacyDec → LegacyDec → LegacyDec → State → Call State
  unfolding trade_side update_existing deduct_fee
  update_position_from_trade trader market_id buys size price fee s =
      update_existing trader market_id (trade_side buys) size price s
        (get_position trader market_id s)
      >>= λ s'. done (deduct_fee trader fee s')
