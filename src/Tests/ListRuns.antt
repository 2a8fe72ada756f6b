-- ===== src/Tests/ListRuns.antt =====
-- The theorems of the list at a list of three items.
use realboy.Prelude.{ℕ, ◌+◌, ◌<◌, ◌≡◌, ◌≢◌, refl, arith, some}
use mathlib.Core.Option.{map}
use realboy.ItemList.{ItemList, list_remove}
use realboy.ItemList.Laws.{contents, delete_at, list_remove_lem}

abbrev three_items : ItemList
three_items = record { capacity = 3; length = 3; items = λ i. i + 5 }

before_six : (j : ℕ) → j < 1 → j + 5 ≢ 6
before_six j h = λ e. absurd (omega arith)

list_remove_lem_example :
    map contents (list_remove three_items 6) ≡ some (delete_at 2 (contents three_items))
list_remove_lem_example =
    list_remove_lem three_items 6 1 (λ e. absurd (omega arith)) refl (omega arith) before_six
