-- ===== src/Common/Order.antt =====
-- `ORDER BY` on a text column: SQLite's BINARY collation, which orders texts by code points.
use vera_mmu.Common.Tests.{ltb, nat_eq, if◌then◌else◌}
use vera_mmu.Common.Text.{codes}
use vera_mmu.Common.Equality.{◌==◌, text_Eq, contains}
use Prim.Native.Nat.{ℕ}
use Prim.Native.String.{String}
use mathlib.Core.Path.{◌≡◌, refl, sym, ◌∙◌}
use mathlib.Core.Logic.{◌↔◌}
use vera_mmu.Common.Lists.{all, All}
use mathlib.Core.Bool.{Bool, true, false, ◌&&◌, ◌||◌}
use mathlib.Core.List.{List, [], ◌∷◌, map}
use native.Mathlib.Omega.{arith}

codes_le : List ℕ → List ℕ → Bool
codes_le [] bs = true
codes_le (a ∷ as') [] = false
codes_le (a ∷ as') (b ∷ bs) = let rest = codes_le as' bs in if nat_eq a b then rest else ltb a b

unfoldable pub text_le : String → String → Bool
unfolding codes_le
text_le a b = codes_le (codes a) (codes b)

insert_sorted : String → List String → List String
insert_sorted a [] = a ∷ []
insert_sorted a (b ∷ bs) =
    let rest = insert_sorted a bs in if text_le a b then a ∷ b ∷ bs else b ∷ rest

unfoldable pub order_by : List String → List String
unfolding insert_sorted text_le
order_by [] = []
order_by (a ∷ as') = insert_sorted a (order_by as')

contains-insert_sorted :
    (a : String) (bs : List String) (x : String)
    → contains (insert_sorted a bs) x ≡ (a == x || contains bs x)
unfolding insert_sorted contains
contains-insert_sorted a [] x = refl
contains-insert_sorted a (b ∷ bs) x = ground (arith, contains-insert_sorted a bs x)

-- Sorting loses and adds nothing.
pub contains-order_by :
    (as' : List String) (x : String) → contains (order_by as') x ≡ contains as' x
unfolding order_by contains
contains-order_by [] x = refl
contains-order_by (a ∷ as') x =
    ground (arith, contains-insert_sorted a (order_by as') x, contains-order_by as' x)

all-insert_sorted :
    (p : String → Bool) (a : String) (bs : List String)
    → all p (insert_sorted a bs) ≡ (p a && all p bs)
unfolding insert_sorted all
all-insert_sorted p a [] = refl
all-insert_sorted p a (b ∷ bs) = ground (arith, all-insert_sorted p a bs)

pub all-order_by : (p : String → Bool) (as' : List String) → all p (order_by as') ≡ all p as'
unfolding order_by all
all-order_by p [] = refl
all-order_by p (a ∷ as') = ground (arith, all-insert_sorted p a (order_by as'), all-order_by p as')

-- A test of all that a query selects and sorts is a predicate of the rows.
pub all-query {ℓ} :
    {R : Type 0} (p : String → Bool) (f : R → String) (P : R → Type ℓ) (rows : List R)
    → ((r : R) → (p (f r) ≡ true) ↔ P r)
    → (all p (order_by (map f rows)) ≡ true) ↔ All P rows
unfolding all
all-query {R = R} p f P rows h = (
  λ e. (each rows).0 (sym (all-order_by p (map f rows)) ∙ e),
  λ a. all-order_by p (map f rows) ∙ (each rows).1 a,
)
  where
    each : (rs : List R) → (all p (map f rs) ≡ true) ↔ All P rs
    each [] = (λ e. tt, λ a. refl)
    each (r ∷ rs) = (
      λ e. ((h r).0 (ground (arith, e)), (each rs).0 (ground (arith, e))),
      λ a. ground (arith, (h r).1 a.0, (each rs).1 a.1),
    )
