-- ===== src/VtFilter/Selects.antt =====
-- `get_filtered_vts_list` (ospd/vtfilter.py) selects the VTs that pass every filter.
use ospd_openvas.Py.TextList.Select.{
  remove-select, has_text-select, select-select, select_cong, absent_differs, select-NoRepeat,
  select_all, select,
}
use ospd_openvas.Py.TextList.{remove, text_eq_sym, has_text, NoRepeat}
use ospd_openvas.Py.Result.{ok}
use ospd_openvas.VtFilter.{
  parse_filters, get_filtered_vts_list, passes, Filter, visit, visit_all, apply_filters, Vts,
}
use ospd_openvas.Prelude.{
  ◌≢◌, ℕ, ◌∙◌, ◌||◌, sym, inr, inl, Bool-cases, refl, ap, arith, not, false, ◌&&◌, true, Bool, ◌≡◌,
  List, [], ◌∷◌,
}
use ospd_openvas.Py.Dict.{keys}
use ospd_openvas.Py.Text.{text_eq_iff, Text, text_eq}

module _ (format_filter_value : Text → Text → Text) (vts : Vts) where
  abbrev keeps : Filter → Text → Text → Bool
  keeps filter oid x = passes format_filter_value vts filter x || not (text_eq oid x)

  -- The visited VT stays if it passes, and every other one.
  keeps_passed :
      (filter : Filter) (oid x : Text)
      → passes format_filter_value vts filter oid ≡ true
      → keeps filter oid x ≡ true
  keeps_passed filter oid x h = elim (Bool-cases (text_eq oid x)) [
    | inl e ↦
        let same = ap (passes format_filter_value vts filter) ((text_eq_iff oid x).0 e) in
        ground (arith, same, h)
    | inr e ↦ ground (arith, e)
  ]

  keeps_failed :
      (filter : Filter) (oid x : Text)
      → passes format_filter_value vts filter oid ≡ false
      → not (text_eq oid x) ≡ keeps filter oid x
  keeps_failed filter oid x h = elim (Bool-cases (text_eq oid x)) [
    | inl e ↦
        let same = ap (passes format_filter_value vts filter) ((text_eq_iff oid x).0 e) in
        ground (arith, same, h, e)
    | inr e ↦ ground (arith, e)
  ]

  visit-select :
      (filter : Filter) (oid : Text) (xs : List Text)
      → NoRepeat xs
      → visit format_filter_value vts filter oid xs ≡ select (keeps filter oid) xs
  unfolding visit
  visit-select filter oid xs h = elim (Bool-cases (has_text oid xs)) [
    | inr e ↦
        let all : select (keeps filter oid) xs ≡ xs =
          select_all (keeps filter oid) xs (λ x p. ground (arith, absent_differs oid x xs e p)) in
        ground (arith, e, all)
    | inl e ↦ elim (Bool-cases (passes format_filter_value vts filter oid)) [
      | inl k ↦
          let all : select (keeps filter oid) xs ≡ xs =
            select_all (keeps filter oid) xs (λ x _. keeps_passed filter oid x k) in
          ground (arith, e, k, all)
      | inr k ↦
          let cut : remove oid xs ≡ select (keeps filter oid) xs =
            remove-select oid xs h
            ∙ select_cong _ (keeps filter oid) xs (λ x _. keeps_failed filter oid x k) in
          ground (arith, e, k, cut)
    ]
  ]

  -- A VT that was not visited stays.
  abbrev stays : Filter → List Text → Text → Bool
  stays filter oids x = passes format_filter_value vts filter x || not (has_text x oids)

  visit_all-select :
      (filter : Filter) (oids xs : List Text)
      → NoRepeat xs
      → visit_all format_filter_value vts filter oids xs ≡ select (stays filter oids) xs
  unfolding visit_all has_text
  visit_all-select filter [] xs h = sym (select_all (stays filter []) xs (λ x _. ground arith))
  visit_all-select filter (oid ∷ oids) xs h =
      ap (visit_all format_filter_value vts filter oids) (visit-select filter oid xs h)
      ∙ visit_all-select filter oids (select (keeps filter oid) xs)
          (select-NoRepeat (keeps filter oid) xs h)
      ∙ select-select (stays filter oids) (keeps filter oid) xs
      ∙ select_cong _ _ xs (λ x _. ground (arith, text_eq_sym oid x))

  -- The VT passes every filter.
  abbrev pub passes_all : List Filter → Text → Bool
  passes_all [] oid = true
  passes_all (filter ∷ filters) oid =
      passes format_filter_value vts filter oid && passes_all filters oid

  apply_filters-select :
      (filters : List Filter) (xs : List Text)
      → NoRepeat xs
      → ((x : Text) → has_text x xs ≡ true → has_text x (keys vts) ≡ true)
      → apply_filters format_filter_value vts filters xs ≡ select (passes_all filters) xs
  unfolding apply_filters
  apply_filters-select [] xs h sub = sym (select_all (passes_all []) xs (λ x _. refl))
  apply_filters-select (filter ∷ filters) xs h sub =
      let p = passes format_filter_value vts filter in
      let one : visit_all format_filter_value vts filter (keys vts) xs ≡ select p xs =
        visit_all-select filter (keys vts) xs h
        ∙ select_cong (stays filter (keys vts)) p xs (λ x e. ground (arith, sub x e)) in
      ap (apply_filters format_filter_value vts filters) one
      ∙ apply_filters-select filters (select p xs) (select-NoRepeat p xs h)
          (λ x e. sub x (ground (arith, has_text-select p x xs)))
      ∙ select-select (passes_all filters) p xs

  -- Where a text that is not empty is parsed into filters, and no VT stands in the collection twice,
  -- the result is the VTs of the collection that pass every filter, in the order of the collection.
  pub get_filtered_vts_list-select :
      (is_word : ℕ → Bool) (vt_filter : Text) (filters : List Filter)
      → NoRepeat (keys vts)
      → vt_filter ≢ []
      → parse_filters is_word vt_filter ≡ ok filters
      → get_filtered_vts_list format_filter_value is_word vts vt_filter
        ≡ ok (select (passes_all filters) (keys vts))
  unfolding get_filtered_vts_list
  get_filtered_vts_list-select is_word [] filters h full e = absurd (full refl)
  get_filtered_vts_list-select is_word (c ∷ s) filters h full e =
      rw (e, apply_filters-select filters (keys vts) h (λ x p. p)) refl
