-- ===== src/VtFilter.antt =====
-- ospd/vtfilter.py: the filter that a client gives for the list of VTs.
pub mod Selects
mod Tests
use ospd_openvas.Py.TextList.{remove, has_text}
use ospd_openvas.Network.Ports.{is_empty}
use ospd_openvas.Prelude.{
  ◌&&◌, some, ltb, not, ◌||◌, none, true, false, Option, ◌==◌, if◌then◌else◌, Bool, List, ℕ, [],
  ◌∷◌,
}
use ospd_openvas.Py.Result.{required_argument, command_error, ◌>>=◌, raise, ok, Result}
use ospd_openvas.Py.Text.{split, codes, text_eq, Text}
use ospd_openvas.Py.Dict.{get, keys, Dict}

-- `(element, operator, value)`
abbrev pub Filter : Type 0
Filter = Text × (ℕ × Text)

-- The VTs, each with its values by name.
abbrev pub Vts : Type 0
Vts = Dict (Dict Text)

-- `operator.lt` on texts.
unfoldable pub text_lt : Text → Text → Bool
text_lt [] [] = false
text_lt [] (d ∷ t) = true
text_lt (c ∷ s) [] = false
text_lt (c ∷ s) (d ∷ t) = let rest = text_lt s t in if ltb c d then true else (c == d) && rest

-- `self.filter_operator[oper](value, filter_value)`
unfoldable pub filter_operator : ℕ → Text → Text → Bool
filter_operator oper value filter_value =
    if oper == b'<'
    then text_lt value filter_value
    else if oper == b'>'
    then text_lt filter_value value
    else text_eq value filter_value

abbrev pub is_operator : ℕ → Bool
is_operator c = (c == b'<') || ((c == b'>') || (c == b'='))

abbrev pub is_allowed_element : Text → Bool
is_allowed_element element =
    text_eq element (codes "creation_time") || text_eq element (codes "modification_time")

-- `\w` of the library re.
module _ (is_word : ℕ → Bool) where
  -- `re.split(r'(\W)', single_filter, 1)`: none stands for a list of one part.
  unfoldable pub split_filter : Text → Option Filter
  split_filter [] = none
  split_filter (c ∷ s) =
      let rest = split_filter s in
      if not (is_word c)
      then some ([], (c, s))
      else elim rest [ none ↦ none | some (element, operation) ↦ some (c ∷ element, operation) ]

  abbrev pub check_filter : Option Filter → Result Filter
  check_filter none = raise command_error
  check_filter (some (element, (oper, value))) =
      if not (is_allowed_element element)
      then raise command_error
      else if not (is_operator oper)
      then raise command_error
      else ok (element, (oper, value))

  abbrev pub parse_each : List Text → Result (List Filter)
  parse_each [] = ok []
  parse_each (single_filter ∷ filter_list) = do
    filter_aux ← check_filter (split_filter single_filter)
    filters ← parse_each filter_list
    ok (filter_aux ∷ filters)

  unfoldable pub parse_filters : Text → Result (List Filter)
  parse_filters vt_filter = parse_each (split b';' vt_filter)

-- `format_vt_creation_time` and `format_vt_modification_time` of the subclass.
module _ (format_filter_value : Text → Text → Text) where
  -- The VT stays: `vt is not None`, its value is there and not empty, and the operator holds.
  unfoldable pub passes : Vts → Filter → Text → Bool
  passes vts (element, (oper, filter_value)) oid = elim (get oid vts) [
    | none ↦ false
    | some vt ↦ elim (get element vt) [
      | none ↦ false
      | some value ↦
          not (is_empty value)
          && filter_operator oper (format_filter_value element value) filter_value
    ]
  ]

  -- The body of the inner loop.
  unfoldable pub visit : Vts → Filter → Text → List Text → List Text
  visit vts filter oid vt_oid_list =
      if not (has_text oid vt_oid_list)
      then vt_oid_list
      else if passes vts filter oid
      then vt_oid_list
      else remove oid vt_oid_list

  -- `for vt_oid in vts`
  unfoldable pub visit_all : Vts → Filter → List Text → List Text → List Text
  visit_all vts filter [] vt_oid_list = vt_oid_list
  visit_all vts filter (oid ∷ oids) vt_oid_list =
      visit_all vts filter oids (visit vts filter oid vt_oid_list)

  unfoldable pub apply_filters : Vts → List Filter → List Text → List Text
  apply_filters vts [] vt_oid_list = vt_oid_list
  apply_filters vts (filter ∷ filters) vt_oid_list =
      apply_filters vts filters (visit_all vts filter (keys vts) vt_oid_list)

  -- The split of a text has a part, so the list of filters is never empty and None is no result.
  unfoldable pub get_filtered_vts_list : (ℕ → Bool) → Vts → Text → Result (List Text)
  get_filtered_vts_list is_word vts [] = raise command_error
  get_filtered_vts_list is_word vts (c ∷ vt_filter) = do
    filters ← parse_filters is_word (c ∷ vt_filter)
    ok (apply_filters vts filters (keys vts))
