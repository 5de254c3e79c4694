-- ===== src/Pages.antt =====
-- Pages of a listing: `pageRecords` of dashboard/lib/inssa-ops/notification-outbox.ts, which
-- `pageDefinitions` of dashboard/lib/monitoring/store.ts repeats, and the loop of
-- dashboard/lib/monitoring/scheduler.ts that reads every page.
pub mod Complete
mod Tests
use web_app_qa_tests_main.Base.{
  ℕ, zero, suc, ◌+◌, Bool, true, false, Option, none, some, List, [], ◌∷◌, ◌++◌, length, take, drop,
  ltb, leb, if◌then◌else◌,
}

pub record Page {ℓ} (A : Type ℓ) : Type ℓ where
  pub items : List A
  pub has_more : Bool
  pub limit : ℕ
  pub next_cursor : Option ℕ
  pub total : ℕ

module _ {ℓ} {A : Type ℓ} where
  unfoldable pub page_records : List A → (cursor limit : ℕ) → Page A
  page_records items cursor limit =
      let page = take limit (drop cursor items) in
      let next_offset = cursor + length page in
      record {
        items = page;
        has_more = ltb next_offset (length items);
        limit = limit;
        next_cursor = if ltb next_offset (length items) then some next_offset else none;
        total = length items;
      }

pub data Reading {ℓ} (A : Type ℓ) : Type ℓ where
  read : List A → Reading A
  invalid_cursor : Reading A
  out_of_fuel : Reading A

module _ {ℓ} {A : Type ℓ} where
  abbrev continue_at : Option ℕ → (cursor : ℕ) → (ℕ → Reading A) → Reading A
  continue_at none cursor rest = invalid_cursor
  continue_at (some next) cursor rest = if leb next cursor then invalid_cursor else rest next

  -- A cursor that does not advance is an error, so every round reads further.
  unfoldable pub read_pages : (list : ℕ → Page A) → (fuel cursor : ℕ) → (fresh : List A) → Reading A
  read_pages list zero cursor fresh = out_of_fuel
  read_pages list (suc fuel) cursor fresh =
      let page = list cursor in
      if page.has_more
      then continue_at page.next_cursor cursor
          (λ next. read_pages list fuel next (fresh ++ page.items))
      else read (fresh ++ page.items)
