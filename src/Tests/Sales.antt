-- ===== src/Tests/Sales.antt =====
-- The theorems about the checkout of an auction's winner, at concrete inputs.
use multi_marketplace.Base.{
  ℕ, ◌≡◌, ◌≤◌, refl, arith, List, [], ◌∷◌, some, none, true, count_where, update_where, str_eq,
  ◌-ℤ◌, ◌+◌,
}
use multi_marketplace.Base
use multi_marketplace.Store.{
  World, Order, OrderStatus, ProductStatus, ok, err, forbidden, Reason, for_each, ◌===◌, string_eq,
}
use multi_marketplace.Money.{earnings}
use multi_marketplace.Repository.Auctions
use multi_marketplace.Repository.Auctions.{claim_winner_checkout}
use multi_marketplace.Repository.Products
use multi_marketplace.Repository.Products.{sold_row}
use multi_marketplace.Repository.Outbox
use multi_marketplace.Repository.Orders.{
  find_order_by_payment_key, find_payment_by_key, seller_orders_of,
}
use multi_marketplace.Repository.Orders.Creation.{
  create_order, create_seller_order, create_item, create_ledger_entry,
}
use multi_marketplace.Bidding.WinnerCheckout.{
  is_winner, is_window_open, is_available, claim_sale, order_sale, sell, sell_won, winner_body,
  recover_sale, checkout_winner,
}
use multi_marketplace.Bidding.WinnerCheckout.Sale.{
  Taken, checkout_winner_sells, checkout_winner-Taken, checkout_winner_failed,
}
use multi_marketplace.Bidding.WinnerCheckout.Parts.{bind, Recorded}
use multi_marketplace.Tests.Worlds.{cents_of, hammer, won_lamp, lamp_product}

abbrev anns_order : Order
anns_order = record {
  id = "id-0";
  user_id = "ann";
  status = OrderStatus.processing;
  subtotal = 50;
  total_amount = 50;
}

abbrev handed_over : World
handed_over = (checkout_winner cents_of "ann" "lamp" "w-1" 300 301 hammer).1

one_lamp : count_where (λ b. str_eq b.id "lamp") hammer.auctions ≤ 1
unfolding str_eq
one_lamp = omega arith

new_key : find_order_by_payment_key "w-1" hammer ≡ none
unfolding find_order_by_payment_key find_payment_by_key
new_key = refl

lamp_there : Auctions.find_by_id "lamp" hammer ≡ some won_lamp
unfolding Auctions.find_by_id str_eq
lamp_there = refl

product_there : Products.find_by_id won_lamp.product_id hammer ≡ some lamp_product
unfolding Products.find_by_id str_eq
product_there = refl

lamp_sold :
    checkout_winner cents_of "ann" "lamp" "w-1" 300 301 hammer ≡ (ok anns_order, handed_over)
unfolding checkout_winner recover_sale winner_body sell_won sell order_sale claim_sale
    claim_winner_checkout create_order create_seller_order create_item create_ledger_entry
    find_order_by_payment_key find_payment_by_key seller_orders_of Auctions.find_by_id
    Products.find_by_id Products.mark_sold Outbox.create Outbox.create_many for_each Base.is_blank
    str_eq earnings ◌-ℤ◌
lamp_sold = refl

checkout_winner_sells_example :
    (is_winner "ann" won_lamp ≡ true)
    × (is_window_open 300 won_lamp ≡ true)
    × (is_available lamp_product ≡ true)
    × (anns_order.user_id ≡ "ann")
    × (anns_order.status ≡ OrderStatus.processing)
    × (anns_order.total_amount ≡ won_lamp.current_price)
    × (Auctions.find_by_id "lamp" handed_over
        ≡ some (record won_lamp { checkout_order_id = some anns_order.id }))
    × (handed_over.products
        ≡ update_where
            (λ q. q.id === won_lamp.product_id)
            (λ q. record q { status = ProductStatus.sold; version = q.version + 1 })
            hammer.products)
    × Recorded cents_of won_lamp lamp_product "w-1" hammer anns_order handed_over
checkout_winner_sells_example =
    checkout_winner_sells cents_of "ann" "lamp" "w-1" 300 301 hammer one_lamp new_key lamp_there
      product_there refl lamp_sold

-- The same lamp, bound to ann's order.
abbrev bound_lamp : World
bound_lamp = record hammer { auctions = bind "id-0" won_lamp ∷ []; orders = anns_order ∷ [] }

no_payment : find_order_by_payment_key "w-2" bound_lamp ≡ none
unfolding find_order_by_payment_key find_payment_by_key
no_payment = refl

bound_there : Auctions.find_by_id "lamp" bound_lamp ≡ some (bind "id-0" won_lamp)
unfolding Auctions.find_by_id str_eq
bound_there = refl

bound_product : Products.find_by_id won_lamp.product_id bound_lamp ≡ some lamp_product
unfolding Products.find_by_id str_eq
bound_product = refl

checkout_winner-Taken_example :
    Taken "ann" "id-0" bound_lamp (checkout_winner cents_of "ann" "lamp" "w-2" 400 401 bound_lamp)
checkout_winner-Taken_example =
    checkout_winner-Taken cents_of "ann" "lamp" "w-2" "id-0" 400 401 bound_lamp no_payment
      bound_there bound_product refl

not_eves :
    checkout_winner cents_of "eve" "lamp" "w-1" 300 301 hammer
    ≡ (err (forbidden Reason.not_the_winner), hammer)
unfolding checkout_winner recover_sale winner_body sell_won find_order_by_payment_key
    find_payment_by_key Auctions.find_by_id Products.find_by_id Base.is_blank str_eq
not_eves = refl

checkout_winner_failed_example : hammer ≡ hammer
checkout_winner_failed_example =
    checkout_winner_failed cents_of "eve" "lamp" "w-1" 300 301 hammer not_eves
