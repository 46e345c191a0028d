-- ===== src/Paging/Tests.antt =====
-- A window of a list of five names in pages of two.
use ptv_mcp.Base.{
  text_eq, Text, Option, none, false, inl, inr, ◌⊎◌, All, Mem, Bool-cases, text_eq_iff,
  if◌then◌else◌, sym, ℕ, ◌+◌, ◌-◌, ◌*◌, ◌≤◌, ◌≡◌, refl, ap, List, [], ◌∷◌, some, text, take, drop,
  arith,
}
use ptv_mcp.Paging.{IdNamePair, PagedList, Client}
use ptv_mcp.Paging.ByIds.{BatchAnswer, found, each_found, fetch_list_by_ids}
use ptv_mcp.Paging.Found.{ServesBatches, fetch_list_by_ids-GivesEach}
use ptv_mcp.Paging.Window.{Serves, ReadsWindow, fetch_id_window-ReadsWindow}

abbrev sample_items : List IdNamePair
sample_items =
    record { id = text "a"; name = some (text "A") }
    ∷ record { id = text "b"; name = some (text "B") }
    ∷ record { id = text "c"; name = some (text "C") }
    ∷ record { id = text "d"; name = some (text "D") }
    ∷ record { id = text "e"; name = some (text "E") }
    ∷ []

abbrev sample_page : ℕ → PagedList
sample_page q = record {
  page_number = q + 1;
  page_size = 2;
  page_count = 3;
  item_list = some (take 2 (drop (q * 2) sample_items));
}

abbrev sample_client : Client
sample_client n = some (sample_page (n - 1))

served : Serves sample_client sample_items 2 3
served = record {
  positive = one;
  enough = five;
  page = λ q. (sample_page q, ap (λ n. some (sample_page n)) (back q), refl, refl, refl);
}
  where
    one : 1 ≤ 2
    one = omega arith

    five : 5 ≤ 6
    five = omega arith

    back : (q : ℕ) → q + 1 - 1 ≡ q
    back q = omega arith

fetch_id_window-ReadsWindow_example : ReadsWindow sample_client sample_items 1 3
fetch_id_window-ReadsWindow_example =
    fetch_id_window-ReadsWindow sample_client sample_items 2 3 3 served 1

-- A server with one name, asked for two ids.
abbrev name_a : IdNamePair
name_a = record { id = text "a"; name = some (text "A") }

abbrev stored_name : Text → Option IdNamePair
stored_name id = if text_eq id (text "a") then some name_a else none

abbrev name_client : List Text → BatchAnswer IdNamePair
name_client batch = found (name_a ∷ [])

stored_name-some :
    (id : Text) (t : IdNamePair) → stored_name id ≡ some t → (t.id ≡ id) × (t ≡ name_a)
stored_name-some id t h = elim (Bool-cases (text_eq id (text "a"))) [
  | inl hit ↦
      let given : some name_a ≡ some t = rw hit at h in
      let same : name_a ≡ t = cc given in
      (rw (← same) (sym ((text_eq_iff id (text "a")).0 hit)), sym same)
  | inr miss ↦ let nothing : none ≡ some t = rw miss at h in cc nothing
]

name_client-Serves : ServesBatches (λ i. i.id) stored_name name_client
unfolding text_eq
name_client-Serves batch = inl (name_a ∷ [], refl, (refl, tt), covers batch)
  where
    covers :
        (batch : List Text)
        → All (λ id. (t : IdNamePair) → stored_name id ≡ some t → Mem t (name_a ∷ [])) batch
    covers [] = tt
    covers (id ∷ ids) = (λ t h. inl (stored_name-some id t h).1, covers ids)

fetch_list_by_ids-GivesEach_example :
    (fetch_list_by_ids (λ i. i.id) name_client false (text "b" ∷ text "a" ∷ [])
      ≡ some (each_found stored_name (text "b" ∷ text "a" ∷ [])))
    ⊎ ((fetch_list_by_ids (λ i. i.id) name_client false (text "b" ∷ text "a" ∷ []) ≡ none)
        × (false ≡ false))
fetch_list_by_ids-GivesEach_example =
    fetch_list_by_ids-GivesEach (λ i. i.id) stored_name (λ id t h. (stored_name-some id t h).0)
      name_client false name_client-Serves (text "b" ∷ text "a" ∷ [])
