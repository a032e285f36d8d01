-- ===== src/VtFilter/Tests.antt =====
-- Runs of the VT filter, and the theorem about it at a concrete input.
use ospd_openvas.VtFilter.Selects.{get_filtered_vts_list-select, passes_all}
use ospd_openvas.Py.TextList.Select.{select}
use ospd_openvas.Py.Result.{command_error, raise, ok}
use ospd_openvas.Py.Dict.{get, keys}
use ospd_openvas.Prelude.{refl, ◌≡◌, ◌==◌, ◌||◌, ◌&&◌, leb, Bool, ℕ, List, [], ◌∷◌}
use ospd_openvas.VtFilter.{
  text_lt, filter_operator, passes, visit, visit_all, apply_filters, has_text,
  get_filtered_vts_list, split_filter, Filter, Vts, parse_filters,
}
use ospd_openvas.Py.TextList.{remove, has_text}
use ospd_openvas.Py.Text.{text_eq, codes, split, Text}

abbrev ascii_word : ℕ → Bool
ascii_word c =
    (leb b'0' c && leb c b'9')
    || ((leb b'A' c && leb c b'Z') || ((c == b'_') || (leb b'a' c && leb c b'z')))

abbrev sample_vts : Vts
sample_vts =
    (codes "1.1", (codes "creation_time", codes "1200") ∷ [])
    ∷ (codes "1.2", (codes "modification_time", codes "1500") ∷ [])
    ∷ (codes "1.3", (codes "creation_time", codes "1400") ∷ [])
    ∷ []

abbrev unformatted : Text → Text → Text
unformatted element value = value

abbrev sample_filters : List Filter
sample_filters =
    (codes "creation_time", (b'>', codes "1100"))
    ∷ (codes "creation_time", (b'<', codes "1300"))
    ∷ []

tests :
    (parse_filters ascii_word (codes "creation_time>1100;creation_time<1300") ≡ ok sample_filters)
    × (parse_filters ascii_word (codes "name=x") ≡ raise command_error)
    × (parse_filters ascii_word (codes "creation_time") ≡ raise command_error)
    × (get_filtered_vts_list unformatted ascii_word sample_vts
          (codes "creation_time>1100;creation_time<1300")
        ≡ ok (codes "1.1" ∷ []))
unfolding parse_filters split split_filter text_eq get_filtered_vts_list apply_filters visit_all
    visit passes has_text remove filter_operator text_lt get
tests = (refl, refl, refl, refl)

get_filtered_vts_list-select_example :
    get_filtered_vts_list unformatted ascii_word sample_vts
      (codes "creation_time>1100;creation_time<1300")
    ≡ ok (select (passes_all unformatted sample_vts sample_filters) (keys sample_vts))
unfolding parse_filters split split_filter text_eq has_text
get_filtered_vts_list-select_example =
    get_filtered_vts_list-select unformatted sample_vts ascii_word
      (codes "creation_time>1100;creation_time<1300") sample_filters (refl, (refl, (refl, tt)))
      (λ e. cc) refl
