-- ===== src/Prefs/VtParams.antt =====
-- The VTs of a scan and their parameters: `_process_vts` of ospd_openvas/preferencehandler.py, without
-- the VT groups.
pub mod Typed
use ospd_openvas.Prelude.{
  ◌==◌, ◌%◌, ◌||◌, ◌&&◌, suc, none, true, ◌∷◌, false, [], List, some, if◌then◌else◌, Bool, ◌++◌, ℕ,
  Option,
}
use ospd_openvas.Py.Number.{int}
use ospd_openvas.Network.Ports.{is_empty}
use ospd_openvas.Prefs.Credentials.{is_word}
use ospd_openvas.VtFilter.{text_lt}
use ospd_openvas.Py.Dict.{put, get, Dict}
use ospd_openvas.Prelude.Int.{ℤ}
use ospd_openvas.Py.Text.{codes, Text}
use ospd_openvas.Prefs.AliveTest.{yes_no}

-- The type and the name of a parameter, which may be missing.
pub record Param : Type 0 where
  pub type : Text
  pub name : Text

-- What the preference handler asks for: whether notus handles a VT, the parameters of a VT if it is
-- known, and whether base64 can be decoded.
pub record VtSource : Type 0 where
  pub is_handled_by_notus : Text → Bool
  pub get_single_vt : Text → Option (Dict Param)
  pub decodes : Text → Bool

pub data ParamType : Type 0 where
  plain checkbox file integer other : ParamType

abbrev pub param_type_of : Text → ParamType
param_type_of param_type =
    if (is_word "entry" param_type || is_word "password" param_type)
      || (is_word "radio" param_type || is_word "sshlogin" param_type)
    then plain
    else if is_word "checkbox" param_type
    then checkbox
    else if is_word "file" param_type
    then file
    else if is_word "integer" param_type
    then integer
    else other

abbrev pub is_number : Option ℤ → Bool
is_number none = false
is_number (some n) = true

module _ (source : VtSource) where
  -- The result None is true here, and 1 is false.
  abbrev pub check_param_type : ParamType → Text → Bool
  check_param_type plain vt_param_value = true
  check_param_type checkbox vt_param_value =
      is_word "0" vt_param_value || is_word "1" vt_param_value
  check_param_type file vt_param_value = source.decodes vt_param_value
  check_param_type integer vt_param_value = is_number (int vt_param_value)
  check_param_type other vt_param_value = false

  -- `_get_vt_param_type` and `_get_vt_param_name`: a missing one is empty.
  abbrev pub get_vt_param : Dict Param → Text → Param
  get_vt_param vt vt_param_id = elim (get vt_param_id vt) [
    | none ↦ record { type = []; name = [] }
    | some param ↦ param
  ]

  abbrev pub type_aux : Text → Param → ParamType
  type_aux vt_param_id param = if is_word "0" vt_param_id then integer else param_type_of param.type

  -- The value as it is stored: 0 and 1 of a checkbox become no and yes.
  abbrev pub converted : ParamType → Text → Text
  converted checkbox vt_param_value = yes_no (is_word "1" vt_param_value)
  converted _ vt_param_value = vt_param_value

  abbrev pub value_if : Bool → Bool → ParamType → Text → Option Text
  value_if true checked type vt_param_value = none
  value_if false false type vt_param_value = none
  value_if false true type vt_param_value = some (converted type vt_param_value)

  -- The value of a parameter, or none where the parameter is not set.
  abbrev pub param_value : Text → Param → Text → Option Text
  param_value vt_param_id param vt_param_value =
      value_if (text_lt (codes "0") vt_param_id && (is_empty param.type || is_empty param.name))
        (check_param_type (type_aux vt_param_id param) vt_param_value) (type_aux vt_param_id param)
        vt_param_value

  abbrev pub or_none : Text → Text
  or_none [] = codes "None"
  or_none (c ∷ s) = c ∷ s

  -- `f'{vtid}:{vt_param_id}:{param_type}:{param_name}'`
  abbrev pub param_key : Text → Text → Param → Text
  param_key vtid vt_param_id param =
      vtid ++ (b':' ∷ (vt_param_id ++ (b':' ∷ (or_none param.type ++ (b':' ∷ or_none param.name)))))

  abbrev pub put_if : Text → Option Text → Dict Text → Dict Text
  put_if key none vts_params = vts_params
  put_if key (some value) vts_params = put key value vts_params

  -- The loop over the parameters of a VT.
  abbrev pub add_params : Text → Dict Param → Dict Text → Dict Text → Dict Text
  add_params vtid vt [] vts_params = vts_params
  add_params vtid vt ((vt_param_id, vt_param_value) ∷ vt_params) vts_params =
      let param = get_vt_param vt vt_param_id in
      add_params vtid vt vt_params (
        put_if (param_key vtid vt_param_id param) (param_value vt_param_id param vt_param_value)
          vts_params)

  abbrev pub add_vt :
      Text → Dict Text → Option (Dict Param) → List Text × Dict Text → List Text × Dict Text
  add_vt vtid vt_params none done = done
  add_vt vtid vt_params (some vt) (vts_list, vts_params) =
      (vts_list ++ (vtid ∷ []), add_params vtid vt vt_params vts_params)

  -- The loop over the VTs; `stopped` is the status of the scan at each count, which is asked for at
  -- every 500th VT.
  abbrev pub process_each :
      (ℕ → Bool) → ℕ → Dict (Dict Text) → List Text × Dict Text → List Text × Dict Text
  process_each stopped counter [] done = done
  process_each stopped counter ((vtid, vt_params) ∷ vts) done =
      let next = process_each stopped (suc counter) vts (
        if source.is_handled_by_notus vtid
        then done
        else add_vt vtid vt_params (source.get_single_vt vtid) done) in
      if (suc counter % 500 == 0) && stopped (suc counter) then done else next

  -- Behind the VTs of the groups.
  unfoldable pub process_vts : (ℕ → Bool) → List Text → Dict (Dict Text) → List Text × Dict Text
  process_vts stopped group_vts vts = process_each stopped 0 vts (group_vts, [])
