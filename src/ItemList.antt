-- ===== src/ItemList.antt =====
-- The list of src/list.c, which holds the breakpoints.
pub mod Laws
use realboy.Prelude.{
  ℕ, zero, suc, ◌+◌, ◌-◌, ◌*◌, ◌&&◌, ltb, leb, ◌==◌, if◌then◌else◌, update, Bytes, Option, none,
  some,
}

-- `list_t`. What is behind the last item is whatever the memory holds.
pub record ItemList : Type 0 where
  pub capacity : ℕ
  pub length : ℕ
  pub items : ℕ → ℕ

-- realloc() is taken to succeed, as the code does: the array has room for `capacity` items.
abbrev pub list_resize : ItemList → ItemList
list_resize l = if l.length == l.capacity then record l { capacity = l.capacity * 2 } else l

-- `list->items[list->length++] = item`, where `none` is a store behind the end of the array, which is
-- undefined.
abbrev pub store : ItemList → ℕ → Option ItemList
store l item =
    if ltb l.length l.capacity
    then some (record l { items = update l.items l.length item; length = l.length + 1 })
    else none

unfoldable pub list_add : ItemList → ℕ → Option ItemList
list_add l item = store (list_resize l) item

-- `none` is the call of memmove() with a negative number of items, which is undefined.
unfoldable pub list_del : ItemList → ℕ → Option ItemList
list_del l index =
    if ltb index l.length
    then some (record l {
      length = l.length - 1;
      items = λ i. if leb index i && ltb i (l.length - 1) then l.items (i + 1) else l.items i;
    })
    else none

-- The loop of list_remove(), with `n` items to go at `d`: `j` and `match` behind it.
unfoldable pub find_from : ℕ → (ℕ → ℕ) → ℕ → ℕ → ℕ × ℕ
find_from zero items d item = (d, items d)
find_from (suc n) items d item =
    let rest = find_from n items (d + 1) item in if items d == item then (d + 1, items d) else rest

unfoldable pub list_remove : ItemList → ℕ → Option ItemList
list_remove l item =
    let (j, match) = find_from l.length l.items 0 item in
    if match == 0 then some l else list_del l j
