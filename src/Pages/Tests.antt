-- ===== src/Pages/Tests.antt =====
-- Pages on small inputs.
use web_app_qa_tests_main.Base.{ℕ, List, [], ◌∷◌, ◌≡◌, refl, some, true}
use web_app_qa_tests_main.Pages.{page_records, read, invalid_cursor, read_pages}

abbrev five : List ℕ
five = 11 ∷ 12 ∷ 13 ∷ 14 ∷ 15 ∷ []

second_page :
    page_records five 2 2
    ≡ record { items = 13 ∷ 14 ∷ []; has_more = true; limit = 2; next_cursor = some 4; total = 5 }
unfolding page_records
second_page = refl

reads_all : read_pages (λ cursor. page_records five cursor 2) 6 0 [] ≡ read five
unfolding read_pages page_records
reads_all = refl

stuck_cursor :
    read_pages (λ cursor. record (page_records five 0 2) { next_cursor = some 0 }) 6 0 []
    ≡ invalid_cursor
unfolding read_pages page_records
stuck_cursor = refl
