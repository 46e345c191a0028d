-- ===== src/Paging.antt =====
-- Reading windows of the server's paged lists (src/ptv/v11/pagination.ts).
use ptv_mcp.Base.{
  ℕ, zero, suc, ◌+◌, ◌-◌, ◌*◌, ◌/◌, Bool, true, false, List, [], ◌∷◌, ◌++◌, map, Option, none, some,
  Text, ltb, leb, nat_eq, length, take, drop, if◌then◌else◌,
}
pub mod Windows
pub mod Window
pub mod ByIds
pub mod Found
pub mod Pages
mod Tests

pub record IdNamePair : Type 0 where
  pub id : Text
  pub name : Option Text

-- `V11PagedList<V11IdNamePair>`; an absent `itemList` is `none`.
pub record PagedList : Type 0 where
  pub page_number : ℕ
  pub page_size : ℕ
  pub page_count : ℕ
  pub item_list : Option (List IdNamePair)

infixl 5 ◌>>=◌
abbrev pub ◌>>=◌ : {A B : Type 0} → Option A → (A → Option B) → Option B
none >>= f = none
(some a) >>= f = f a

-- `client.get(listPath, { page })`; a request that fails is `none`.
abbrev pub Client : Type 0
Client = ℕ → Option PagedList

abbrev pub items_of : PagedList → List IdNamePair
items_of p = elim p.item_list [ none ↦ [] | some items ↦ items ]

abbrev pub ids_of : List IdNamePair → List Text
ids_of = map (λ i. i.id)

pub record IdWindow : Type 0 where
  pub ids : List Text
  pub total_count_estimate : ℕ

-- The ids that one page adds: `itemList.slice(offsetInPage, offsetInPage + (count - ids.length))`.
abbrev pub from_page : ℕ → ℕ → PagedList → List Text → List Text
from_page count offset page ids =
    ids ++ ids_of (take (count - length ids) (drop offset (items_of page)))

-- What a round does with the page that it reads; `rest` is the loop from the next page.
unfoldable pub after_page :
    (List Text → Option (List Text)) → ℕ → ℕ → ℕ → List Text → Option PagedList → Option (List Text)
after_page rest count v11_page offset ids none = none
after_page rest count v11_page offset ids (some page) =
    if leb page.page_count v11_page
    then some (from_page count offset page ids)
    else rest (from_page count offset page ids)

-- The `while` loop; the fuel bounds the number of pages read, and a loop that would go on without
-- fuel has no answer.
unfoldable pub window_loop : Client → ℕ → ℕ → ℕ → ℕ → List Text → Option (List Text)
window_loop client count zero v11_page offset ids =
    if ltb (length ids) count then none else some ids
window_loop client count (suc fuel) v11_page offset ids =
    let rest = window_loop client count fuel (v11_page + 1) 0 in
    if ltb (length ids) count
    then after_page rest count v11_page offset ids (client v11_page)
    else some ids

-- The window that the first page's size puts the start in. Page 1 is not read again, which for a
-- function of the page is the same.
unfoldable pub window_from : Client → ℕ → ℕ → PagedList → Option IdWindow
window_from client start count first = do
  ids ←
      window_loop client count (suc first.page_count) (start / first.page_size + 1)
        (start - start / first.page_size * first.page_size) []
  some (record { ids = ids; total_count_estimate = first.page_count * first.page_size })

unfoldable pub fetch_id_window : Client → ℕ → ℕ → Option IdWindow
fetch_id_window client start count =
    if nat_eq count 0
    then some (record { ids = []; total_count_estimate = 0 })
    else do first ← client 1; window_from client start count first
