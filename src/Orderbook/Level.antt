-- ===== src/Orderbook/Level.antt =====
-- x/orderbook/types/types.go: `PriceLevel`. Order IDs stand oldest first.
use perp_dex.Base.{Bool, true, false, String, List, [], ◌∷◌, ◌++◌, same, if◌then◌else◌}
use perp_dex.Base.Int.{◌+ℤ◌, ◌-ℤ◌}
use perp_dex.Decimal.{LegacyDec, zero_dec}

pub record PriceLevel : Type 0 where
  pub price : LegacyDec
  pub quantity : LegacyDec
  pub order_ids : List String

unfoldable pub new_price_level : LegacyDec → PriceLevel
new_price_level price = record { price = price; quantity = zero_dec; order_ids = [] }

abbrev pub is_empty : PriceLevel → Bool
is_empty l = elim l.order_ids [ [] ↦ true | _ ↦ false ]

-- Some ID of the list is `id`.
unfoldable pub has_id : String → List String → Bool
has_id id [] = false
has_id id (x ∷ xs) = if same x id then true else has_id id xs

-- Without the first entry that is `id`.
unfoldable pub remove_first : String → List String → List String
remove_first id [] = []
remove_first id (x ∷ xs) = if same x id then xs else x ∷ remove_first id xs

-- `PriceLevel.AddOrder`
unfoldable pub add_to_level : String → LegacyDec → PriceLevel → PriceLevel
add_to_level id qty l = record l {
  order_ids = l.order_ids ++ id ∷ [];
  quantity = l.quantity +ℤ qty;
}

-- `PriceLevel.RemoveOrder`
unfoldable pub remove_from_level : String → LegacyDec → PriceLevel → PriceLevel
remove_from_level id qty l =
    if has_id id l.order_ids
    then record l { order_ids = remove_first id l.order_ids; quantity = l.quantity -ℤ qty }
    else l
