-- ===== src/Prefs/VtParams/Typed.antt =====
-- The stored values of VT parameters have the types of the parameters
-- (ospd_openvas/preferencehandler.py).
use ospd_openvas.Prelude.{
  ◌||◌, ◌&&◌, ◌==◌, ◌%◌, suc, ◌∷◌, if◌then◌else◌, [], ℕ, List, false, inr, refl, inl, none, ◌⊎◌,
  some, true, ◌≡◌, Bool, Option,
}
use ospd_openvas.Network.Ports.{is_empty}
use ospd_openvas.VtFilter.{text_lt}
use ospd_openvas.Prefs.VtParams.{
  get_vt_param, value_if, add_params, put_if, add_vt, process_each, param_key, process_vts, other,
  integer, file, checkbox, plain, converted, type_aux, check_param_type, Param, is_number,
  ParamType, VtSource,
}
use ospd_openvas.Py.Dict.Laws.{AllEntries-put, AllEntries}
use ospd_openvas.Py.Dict.{Dict}
use ospd_openvas.Py.Number.{int}
use ospd_openvas.Prefs.Credentials.{is_word}
use ospd_openvas.Py.Text.{codes, Text}
use ospd_openvas.Prefs.AliveTest.{yes_no}
use ospd_openvas.Prelude.Int.{ℤ}

module _ (source : VtSource) where
  -- What the scanner expects of a value of the type.
  abbrev pub IsValue : ParamType → Text → Type 0
  IsValue plain value = Unit
  IsValue checkbox value = (value ≡ codes "yes") ⊎ (value ≡ codes "no")
  IsValue file value = source.decodes value ≡ true
  IsValue integer value = (n : ℤ) × (int value ≡ some n)
  IsValue other value = ⊥

  yes_or_no : (b : Bool) → (yes_no b ≡ codes "yes") ⊎ (yes_no b ≡ codes "no")
  yes_or_no true = inl refl
  yes_or_no false = inr refl

  is_number-some : (o : Option ℤ) → is_number o ≡ true → (n : ℤ) × (o ≡ some n)
  is_number-some none h = cc
  is_number-some (some n) h = (n, refl)

  converted-IsValue :
      (type : ParamType) (value : Text)
      → check_param_type source type value ≡ true
      → IsValue type (converted source type value)
  converted-IsValue plain value h = tt
  converted-IsValue checkbox value h = yes_or_no (is_word "1" value)
  converted-IsValue file value h = h
  converted-IsValue integer value h = is_number-some (int value) h
  converted-IsValue other value h = cc

  -- The key of a parameter, with a value of its type.
  abbrev pub IsTyped : Text → Text → Type 0
  IsTyped key value =
      (vtid : Text) × (vt_param_id : Text) × (param : Param) × (key
        ≡ param_key source vtid vt_param_id param)
      × IsValue (type_aux source vt_param_id param) value

  put_if-AllEntries :
      (vtid vt_param_id given : Text) (param : Param) (skipped checked : Bool) (d : Dict Text)
      → check_param_type source (type_aux source vt_param_id param) given ≡ checked
      → AllEntries IsTyped d
      → AllEntries IsTyped (
          put_if source
            (param_key source vtid vt_param_id param)
            (value_if source skipped checked (type_aux source vt_param_id param) given)
            d)
  put_if-AllEntries vtid vt_param_id given param true checked d e h = h
  put_if-AllEntries vtid vt_param_id given param false false d e h = h
  put_if-AllEntries vtid vt_param_id given param false true d e h =
      let type = type_aux source vt_param_id param in
      AllEntries-put IsTyped (param_key source vtid vt_param_id param) (converted source type given)
        d (vtid, vt_param_id, param, refl, converted-IsValue type given e) h

  add_params-AllEntries :
      (vtid : Text) (vt : Dict Param) (vt_params d : Dict Text)
      → AllEntries IsTyped d
      → AllEntries IsTyped (add_params source vtid vt vt_params d)
  add_params-AllEntries vtid vt [] d h = h
  add_params-AllEntries vtid vt ((vt_param_id, given) ∷ vt_params) d h =
      let param = get_vt_param source vt vt_param_id in
      add_params-AllEntries vtid vt vt_params _ (
        put_if-AllEntries vtid vt_param_id given param
          (text_lt (codes "0") vt_param_id && (is_empty param.type || is_empty param.name)) _ d refl
          h)

  add_vt-AllEntries :
      (vtid : Text) (vt_params : Dict Text) (vt : Option (Dict Param))
      (done : List Text × Dict Text)
      → AllEntries IsTyped done.1
      → AllEntries IsTyped (add_vt source vtid vt_params vt done).1
  add_vt-AllEntries vtid vt_params none done h = h
  add_vt-AllEntries vtid vt_params (some vt) (vts_list, d) h =
      add_params-AllEntries vtid vt vt_params d h

  AllEntries-if :
      (b : Bool) (first second : List Text × Dict Text)
      → AllEntries IsTyped first.1
      → AllEntries IsTyped second.1
      → AllEntries IsTyped (if b then first else second).1
  AllEntries-if true first second h k = h
  AllEntries-if false first second h k = k

  process_each-AllEntries :
      (stopped : ℕ → Bool) (counter : ℕ) (vts : Dict (Dict Text)) (done : List Text × Dict Text)
      → AllEntries IsTyped done.1
      → AllEntries IsTyped (process_each source stopped counter vts done).1
  process_each-AllEntries stopped counter [] done h = h
  process_each-AllEntries stopped counter ((vtid, vt_params) ∷ vts) done h =
      let vt = source.get_single_vt vtid in
      AllEntries-if ((suc counter % 500 == 0) && stopped (suc counter)) done _ h (
        process_each-AllEntries stopped (suc counter) vts _ (
          AllEntries-if (source.is_handled_by_notus vtid) done
            (add_vt source vtid vt_params vt done) h (add_vt-AllEntries vtid vt_params vt done h)))

  -- Whatever the VTs of a scan are, and wherever it is stopped, each value that is stored stands under
  -- the key of a parameter and has the type of the parameter: yes or no for a checkbox, a text that is
  -- read as a number for an integer, and one that can be decoded for a file.
  pub process_vts-IsTyped :
      (stopped : ℕ → Bool) (group_vts : List Text) (vts : Dict (Dict Text))
      → AllEntries IsTyped (process_vts source stopped group_vts vts).1
  unfolding process_vts
  process_vts-IsTyped stopped group_vts vts =
      process_each-AllEntries stopped 0 vts (group_vts, []) tt
