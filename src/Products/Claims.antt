-- ===== src/Products/Claims.antt =====
-- The calls of Products and Products/Editing as what they make of the table of products.
use multi_marketplace.Base.{
  ℕ, ◌≡◌, refl, ap, ◌∙◌, ◌⊎◌, inl, inr, String, List, Option, none, some, arith, update_where, ◌++◌,
  ◌∷◌, [],
}
use multi_marketplace.Store.{World, Product, ◌===◌, string_eq}
use multi_marketplace.Repository.Products
use multi_marketplace.Repository.Products.{
  find_by_id, claim_status, find_or_throw, is_claimed, product_row,
}
use multi_marketplace.Repository.Carts
use multi_marketplace.Repository.Auctions
use multi_marketplace.Repository.Outbox
use multi_marketplace.Products.Editing.{
  CreateProductDto, UpdateProductDto, created_data, create_body, create_attempt, create,
  ensure_category_exists, edit, new_image, update_body, update_attempt, save, update,
}
use multi_marketplace.Products.{
  find_owned_product, is_draft_of, set_pending, submit_body, submit_for_approval,
  is_pending_approval, moderated, Verdict, verdict_status, start_if_auction, moderate_body,
  moderate, is_on_sale_of, archive, remove_body, remove, is_archived_of, restore_row, restore_body,
  restore,
}

pub submit_products :
    (id seller : String) (w : World)
    → ((submit_for_approval id seller w).1.products ≡ w.products)
      ⊎ ((submit_for_approval id seller w).1.products
          ≡ update_where (is_claimed id (is_draft_of seller)) set_pending w.products)
unfolding submit_for_approval submit_body find_owned_product claim_status find_or_throw
    Outbox.create
submit_products id seller w = ground arith

pub moderate_products :
    (id admin : String) (v : Verdict) (c : Option String) (now : ℕ) (w : World)
    → ((moderate id admin v c now w).1.products ≡ w.products)
      ⊎ ((moderate id admin v c now w).1.products
          ≡ update_where
              (is_claimed id is_pending_approval)
              (moderated (verdict_status v))
              w.products)
unfolding moderate moderate_body start_if_auction claim_status find_or_throw Outbox.create
    Auctions.activate_draft_if_started
moderate_products id admin v c now w = ground arith

pub remove_products :
    (id seller : String) (w : World)
    → ((remove id seller w).1.products ≡ w.products)
      ⊎ ((remove id seller w).1.products
          ≡ update_where (is_claimed id (is_on_sale_of seller)) archive w.products)
unfolding remove remove_body find_owned_product claim_status find_or_throw Outbox.create
    Auctions.cancel_for_product Carts.remove_product
remove_products id seller w = ground arith

pub restore_products :
    (id seller : String) (w : World)
    → ((restore id seller w).1.products ≡ w.products)
      ⊎ ((restore id seller w).1.products
          ≡ update_where (is_claimed id (is_archived_of seller)) restore_row w.products)
unfolding restore restore_body find_owned_product claim_status find_or_throw Outbox.create
restore_products id seller w = ground arith

pub create_products :
    (dto : CreateProductDto) (seller slug : String) (uploaded : Option String) (w : World)
    → ((create dto seller slug uploaded w).1.products ≡ w.products)
      ⊎ ((create dto seller slug uploaded w).1.products
          ≡ w.products ++ product_row (w.uuid w.drawn) (created_data dto seller slug uploaded) ∷ [])
unfolding create create_attempt create_body ensure_category_exists Products.create Outbox.create
create_products dto seller slug uploaded w = ground arith

abbrev pub edited :
    String → UpdateProductDto → Option String → Product → List Product → List Product
edited id dto uploaded existing =
    update_where (λ p. p.id === id) (edit dto (new_image uploaded dto.image_url existing))

save_products :
    (id : String) (dto : UpdateProductDto) (uploaded : Option String) (existing : Product)
    (w : World)
    → ((save id dto uploaded existing w).1.products ≡ w.products)
      ⊎ ((save id dto uploaded existing w).1.products ≡ edited id dto uploaded existing w.products)
unfolding save update_attempt update_body Products.update Outbox.create
save_products id dto uploaded existing w = ground arith

-- The guards of `update` read; what follows them is the `try`.
update_guards :
    (id : String) (dto : UpdateProductDto) (seller : String) (uploaded : Option String)
    (existing : Product) (w : World)
    → find_by_id id w ≡ some existing
    → ((update id dto seller uploaded w).1 ≡ w)
      ⊎ ((update id dto seller uploaded w).1 ≡ (save id dto uploaded existing w).1)
unfolding update find_owned_product ensure_category_exists
update_guards id dto seller uploaded existing w e = ground (arith, e)

update_missing :
    (id : String) (dto : UpdateProductDto) (seller : String) (uploaded : Option String) (w : World)
    → find_by_id id w ≡ none
    → (update id dto seller uploaded w).1 ≡ w
unfolding update find_owned_product
update_missing id dto seller uploaded w e = ground (arith, e)

pub update_products :
    (id : String) (dto : UpdateProductDto) (seller : String) (uploaded : Option String) (w : World)
    → ((update id dto seller uploaded w).1.products ≡ w.products)
      ⊎ ((existing : Product) × (find_by_id id w ≡ some existing)
          × ((update id dto seller uploaded w).1.products
              ≡ edited id dto uploaded existing w.products))
update_products id dto seller uploaded w = given (find_by_id id w) refl
  where
    given :
        (found : Option Product)
        → find_by_id id w ≡ found
        → ((update id dto seller uploaded w).1.products ≡ w.products)
          ⊎ ((existing : Product) × (find_by_id id w ≡ some existing)
              × ((update id dto seller uploaded w).1.products
                  ≡ edited id dto uploaded existing w.products))
    given none e = inl (ap (λ v. v.products) (update_missing id dto seller uploaded w e))
    given (some existing) e = elim (update_guards id dto seller uploaded existing w e) [
      | inl kept ↦ inl (ap (λ v. v.products) kept)
      | inr went ↦ elim (save_products id dto uploaded existing w) [
        | inl same ↦ inl (ap (λ v. v.products) went ∙ same)
        | inr changed ↦ inr (existing, e, ap (λ v. v.products) went ∙ changed)
      ]
    ]
