-- ===== src/Paging/ByIds.antt =====
-- Full records for a list of ids, in batches of 100, and whole paged lists (src/ptv/v11/pagination.ts,
-- fetchListByIds and fetchAllPages).
use ptv_mcp.Base.{
  ℕ, zero, suc, ◌+◌, ◌-◌, Bool, List, [], ◌∷◌, ◌++◌, Option, none, some, Text, text_eq, ltb, length,
  take, drop, if◌then◌else◌,
}
use ptv_mcp.Paging.{IdNamePair, Client, ◌>>=◌, items_of}

-- What `client.get` answers for a batch of ids; PTV answers 404 when it finds none of them.
pub data BatchAnswer (T : Type 0) : Type 0 where
  found : List T → BatchAnswer T
  not_found : BatchAnswer T
  failed : BatchAnswer T

-- Later pages of `fetchAllPages`; the results keep the order of the pages.
unfoldable pub later_pages : Client → ℕ → ℕ → Option (List IdNamePair)
later_pages client zero page = some []
later_pages client (suc left) page = do
  result ← client page
  rest ← later_pages client left (page + 1)
  some (items_of result ++ rest)

unfoldable pub fetch_all_pages : Client → Option (List IdNamePair)
fetch_all_pages client = do
  first ← client 1
  rest ← later_pages client (first.page_count - 1) 2
  some (items_of first ++ rest)

abbrev pub kept : {T : Type 0} → Option T → List T → List T
kept none rest = rest
kept (some t) rest = t ∷ rest

-- `ids.map(lookup).filter(found)`
abbrev pub each_found : {T : Type 0} → (Text → Option T) → List Text → List T
each_found lookup [] = []
each_found lookup (id ∷ ids) = kept (lookup id) (each_found lookup ids)

module _ {T : Type 0} (id_of : T → Text) where
  -- `new Map(wires.map((wire) => [wire.id, wire])).get(id)`: the last wire of that id.
  abbrev pub by_id : List T → Text → Option T
  by_id [] id = none
  by_id (t ∷ ts) id = elim (by_id ts id) [
    | some later ↦ some later
    | none ↦ if text_eq (id_of t) id then some t else none
  ]

module _ {T : Type 0} (id_of : T → Text) (client : List Text → BatchAnswer T)
    (not_found_as_empty : Bool) where
  -- One round's `try` and `catch`, in front of the other rounds.
  unfoldable pub with_batch : BatchAnswer T → Option (List T) → Option (List T)
  with_batch (found ts) rest = rest >>= λ more. some (ts ++ more)
  with_batch not_found rest = if not_found_as_empty then rest else none
  with_batch failed rest = none

  -- The `for` loop from index `i` on; the fuel bounds the number of batches, and a loop that would go
  -- on without fuel has no answer.
  unfoldable pub batches_from : ℕ → ℕ → List Text → Option (List T)
  batches_from zero i ids = if ltb i (length ids) then none else some []
  batches_from (suc fuel) i ids =
      let rest = batches_from fuel (i + 100) ids in
      if ltb i (length ids) then with_batch (client (take 100 (drop i ids))) rest else some []

  unfoldable pub fetch_list_by_ids : List Text → Option (List T)
  fetch_list_by_ids ids = do
    wires ← batches_from (suc (length ids)) 0 ids
    some (each_found (by_id id_of wires) ids)
