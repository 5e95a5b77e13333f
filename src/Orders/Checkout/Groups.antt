-- ===== src/Orders/Checkout/Groups.antt =====
-- The map `bySeller` and the amounts in it.
use multi_marketplace.Base.{
  ℕ, ◌+◌, ◌≤◌, ◌≡◌, refl, sym, ◌∙◌, String, List, [], ◌∷◌, ◌++◌, map, arith, sum_by, select,
  count_where, eq_of_str_eq, str_eq_refl, if◌then◌else◌,
}
use mathlib.Core.List.{append_assoc, append-nil}
use multi_marketplace.Store.{◌===◌, string_eq}
use multi_marketplace.Repository.Orders.Creation.{ItemData}
use multi_marketplace.Orders.Checkout.{
  Group, Line, Tally, line_total, line_item, add_line, tally_line,
}

-- The loop without the tables.
abbrev pub tally_lines : List Line → Tally → Tally
tally_lines [] t = t
tally_lines (l ∷ ls) t = tally_lines ls (tally_line l t)

-- What the groups hold for one seller.
abbrev pub subtotal_for : String → List Group → ℕ
subtotal_for s gs = sum_by (λ g. g.subtotal) (select (λ g. g.seller_id === s) gs)

abbrev pub items_for : String → List Group → List ItemData
items_for s [] = []
items_for s (g ∷ gs) =
    let rest = items_for s gs in if g.seller_id === s then g.items ++ rest else rest

abbrev pub lines_for : String → List Line → List Line
lines_for s ls = select (λ l. l.product.seller_id === s) ls

abbrev pub groups_of : String → List Group → ℕ
groups_of s gs = count_where (λ g. g.seller_id === s) gs

-- One group for each seller with a line, none for the others.
groups_of-add_line :
    (s : String) (l : Line) (gs : List Group)
    → groups_of s gs ≤ 1
    → groups_of s (add_line l gs) ≡ (if l.product.seller_id === s then 1 else groups_of s gs)
unfolding add_line
groups_of-add_line s l [] h = ground arith
groups_of-add_line s l (g ∷ gs) h = ground (
  arith,
  eq_of_str_eq g.seller_id l.product.seller_id,
  eq_of_str_eq l.product.seller_id s,
  eq_of_str_eq g.seller_id s,
  str_eq_refl s,
  groups_of-add_line s l gs,
)

subtotal-add_line :
    (s : String) (l : Line) (gs : List Group)
    → subtotal_for s (add_line l gs)
      ≡ subtotal_for s gs + (if l.product.seller_id === s then line_total l else 0)
unfolding add_line
subtotal-add_line s l [] = ground arith
subtotal-add_line s l (g ∷ gs) =
    ground (arith, subtotal-add_line s l gs, eq_of_str_eq g.seller_id l.product.seller_id)

items_for-none : (s : String) (gs : List Group) → groups_of s gs ≡ 0 → items_for s gs ≡ []
items_for-none s [] h = refl
items_for-none s (g ∷ gs) h = ground (arith, items_for-none s gs)

items-add_line :
    (s : String) (l : Line) (gs : List Group)
    → groups_of s gs ≤ 1
    → items_for s (add_line l gs)
      ≡ items_for s gs ++ (if l.product.seller_id === s then line_item l ∷ [] else [])
unfolding add_line
items-add_line s l [] h = ground arith
items-add_line s l (g ∷ gs) h = ground (
  arith,
  eq_of_str_eq g.seller_id l.product.seller_id,
  eq_of_str_eq l.product.seller_id s,
  eq_of_str_eq g.seller_id s,
  str_eq_refl s,
  items_for-none s gs,
  append-nil g.items,
  append-nil (g.items ++ line_item l ∷ []),
  append_assoc g.items (items_for s gs) (line_item l ∷ []),
  append_assoc g.items (items_for s gs) [],
  append-nil (items_for s gs),
  items-add_line s l gs,
)

sum-add_line :
    (l : Line) (gs : List Group)
    → sum_by (λ g. g.subtotal) (add_line l gs) ≡ sum_by (λ g. g.subtotal) gs + line_total l
unfolding add_line
sum-add_line l [] = ground arith
sum-add_line l (g ∷ gs) = ground (arith, sum-add_line l gs)

-- What the loop keeps, for one seller, of the groups that it started with.
record IsGrouped (s : String) (ls : List Line) (before after : List Group) : Type 0 where
  single : groups_of s after ≤ 1
  subtotal : subtotal_for s after ≡ subtotal_for s before + sum_by line_total (lines_for s ls)
  items : items_for s after ≡ items_for s before ++ map line_item (lines_for s ls)

abbrev new_items : String → Line → List ItemData
new_items s l = if l.product.seller_id === s then line_item l ∷ [] else []

lines_for-cons :
    (s : String) (l : Line) (ls : List Line)
    → map line_item (lines_for s (l ∷ ls)) ≡ new_items s l ++ map line_item (lines_for s ls)
lines_for-cons s l ls = ground arith

tally_lines-IsGrouped :
    (s : String) (ls : List Line) (t : Tally)
    → groups_of s t.1 ≤ 1
    → IsGrouped s ls t.1 (tally_lines ls t).1
tally_lines-IsGrouped s [] t h = record {
  single = h;
  subtotal = omega arith;
  items = sym (append-nil (items_for s t.1));
}
tally_lines-IsGrouped s (l ∷ ls) t h =
    let rest =
      tally_lines-IsGrouped s ls (tally_line l t) (ground (arith, groups_of-add_line s l t.1)) in
    record {
      single = rest.single;
      subtotal = ground (arith, rest.subtotal, subtotal-add_line s l t.1);
      items =
          rest.items
          ∙ rw (items-add_line s l t.1 h, lines_for-cons s l ls)
              (append_assoc (items_for s t.1) (new_items s l) (map line_item (lines_for s ls)));
    }

tally_lines-total :
    (ls : List Line) (t : Tally)
    → ((tally_lines ls t).0 ≡ t.0 + sum_by line_total ls)
      × (sum_by (λ g. g.subtotal) (tally_lines ls t).1
          ≡ sum_by (λ g. g.subtotal) t.1 + sum_by line_total ls)
tally_lines-total [] t = (omega arith, omega arith)
tally_lines-total (l ∷ ls) t =
    let rest = tally_lines-total ls (tally_line l t) in
    (omega (arith, rest.0), omega (arith, rest.1, sum-add_line l t.1))

-- The loop over the lines of a cart partitions it by seller: the total is the sum over the lines and over the groups, and
-- every seller has at most one group, whose subtotal and items are those of the seller's lines, in
-- the order of the cart.
pub tally_lines-partition :
    (ls : List Line) (s : String)
    → let (total, groups) = tally_lines ls (0, []) in
      (total ≡ sum_by line_total ls)
      × (sum_by (λ g. g.subtotal) groups ≡ total)
      × (groups_of s groups ≤ 1)
      × (subtotal_for s groups ≡ sum_by line_total (lines_for s ls))
      × (items_for s groups ≡ map line_item (lines_for s ls))
tally_lines-partition ls s =
    let totals = tally_lines-total ls (0, []) in
    let grouped = tally_lines-IsGrouped s ls (0, []) (omega arith) in
    (
      omega (arith, totals.0),
      omega (arith, totals.0, totals.1),
      grouped.single,
      omega (arith, grouped.subtotal),
      grouped.items,
    )
