-- ===== src/Kb/Status.antt =====
-- The status of a scan in its knowledge base (`KbDB.stop_scan` and the questions about it, and
-- `MainDB.check_consistency`, of ospd_openvas/db.py).
use ospd_openvas.Kb.KbDb.{
  is_none, internal, target_is_finished, scan_is_stopped, is_text, stop_scan, get_status,
}
use ospd_openvas.Prelude.{
  ◌||◌, sym, ◌==◌, false, ◌∙◌, ap, ◌⊎◌, refl, none, some, ◌↔◌, ◌≤◌, length, true, not, [], arith,
  Bool, ◌∷◌, ◌≡◌, List, ℕ, ◌≢◌, Option,
}
use ospd_openvas.Py.Text.{text_eq, text_eq_iff, codes, Text}
use ospd_openvas.Kb.Redis.{head_of, ListLaws, SetLaws, Redis}
use ospd_openvas.Kb.First.{first_in-range, IsLeast, first_in}
use ospd_openvas.Py.Order.{range}
use ospd_openvas.Prelude.Int.{pos, negsuc, ℤ}
use ospd_openvas.Py.Dict.Laws.{text_eq_refl}
use ospd_openvas.Kb.BaseKbDb.{ctx_of}
use ospd_openvas.Py.TextList.{NoRepeat, has_text}
use ospd_openvas.Kb.MainDb.{
  status_of, max_database_index, error_code, find_kb_database_by_scan_id, find_each,
  check_consistency,
}
use ospd_openvas.Py.Result.{ok, Ends}
use ospd_openvas.Kb.BaseKbDb
use ospd_openvas.Kb.OpenvasDb

-- The texts of a status.
abbrev pub finished_text : Text
finished_text = codes "finished"

abbrev pub stop_all_text : Text
stop_all_text = codes "stop_all"

abbrev pub ready_text : Text
ready_text = codes "ready"

-- A list without repetition that has the texts of a list of one.
one_element :
    (x : Text) (l : List Text)
    → ((v : Text) → has_text v l ≡ has_text v (x ∷ []))
    → NoRepeat l
    → l ≡ x ∷ []
unfolding has_text
one_element x [] same once = ground (arith, same x, text_eq_refl x)
one_element x (y ∷ []) same once =
    ap (λ z. z ∷ []) ((text_eq_iff y x).0 (ground (arith, same y, text_eq_refl y)))
one_element x (y ∷ z ∷ l) same (once, _) =
    let first = (text_eq_iff y x).0 (ground (arith, same y, text_eq_refl y)) in
    let second = (text_eq_iff z x).0 (ground (arith, same z, text_eq_refl z)) in
    ground (arith, once, (text_eq_iff y z).1 (first ∙ sym second))

different : (a b : Text) → text_eq a b ≡ false → a ≢ b
different a b h e = ground (arith, h, (text_eq_iff a b).1 e)

module _ (redis : Redis) where
  pub elements-one : (x : Text) → SetLaws redis → redis.elements (x ∷ []) ≡ x ∷ []
  elements-one x laws =
      one_element x (redis.elements (x ∷ [])) (λ v. laws.elements_same v (x ∷ []))
        (laws.elements_once (x ∷ []))

  -- Stopping a scan replaces its status: then it is stopped, its target does not count as finished,
  -- and no other status is left.
  pub stop_scan-scan_is_stopped :
      (index : ℕ) (scan_id : Text) (s : redis.State)
      → ListLaws redis
      → SetLaws redis
      → (new : redis.State) × (stop_scan redis index scan_id s ≡ ok new)
        × (redis.lrange (ctx_of index) (internal scan_id) new ≡ stop_all_text ∷ [])
        × (scan_is_stopped redis index scan_id new ≡ ok true)
        × (target_is_finished redis index scan_id new ≡ ok false)
  unfolding stop_scan scan_is_stopped target_is_finished BaseKbDb.set_single_item
      BaseKbDb.get_single_item OpenvasDb.set_single_item OpenvasDb.get_single_item
  stop_scan-scan_is_stopped index scan_id s laws sets =
      let ctx = ctx_of index in
      let name = internal scan_id in
      let cleared = (redis.delete ctx name s).1 in
      let new = redis.rpush ctx name (redis.elements (stop_all_text ∷ [])) cleared in
      let items : redis.lrange ctx name new ≡ stop_all_text ∷ [] =
        laws.lrange_rpush ctx name (redis.elements (stop_all_text ∷ [])) cleared
        ∙ rw (laws.lrange_delete ctx name s) (elements-one stop_all_text sets) in
      let status : redis.lindex ctx name new ≡ some stop_all_text =
        laws.lindex_head ctx name new ∙ ap head_of items in
      (
        new,
        refl,
        items,
        ap (λ o. ok (is_text stop_all_text o)) status ∙ unfold text_eq in refl,
        ap (λ o. ok (is_text finished_text o || is_none o)) status ∙ unfold text_eq in refl,
      )

  -- Whether a database has a key for the scan.
  abbrev pub has_key : Text → redis.State → ℕ → Bool
  has_key scan_id s i = not (length (redis.keys (ctx_of i) (internal scan_id) s) == 0)

  -- -1 for an old finished scan, -2 for one that is still running, and 0 in any other case.
  abbrev pub IsCode : Option Text → ℤ → Type 0
  IsCode status code =
      ((code ≡ negsuc 0) ↔ (status ≡ some finished_text))
      × ((code ≡ negsuc 1) ↔ ((status ≡ some stop_all_text) ⊎ (status ≡ some ready_text)))
      × ((code ≡ negsuc 0) ⊎ ((code ≡ negsuc 1) ⊎ (code ≡ pos 0)))

  is_text_iff : (text : Text) (o : Option Text) → (is_text text o ≡ true) ↔ (o ≡ some text)
  is_text_iff text none = ground arith
  is_text_iff text (some status) = ground (arith, text_eq_iff status text)

  finished-stop_all : finished_text ≢ stop_all_text
  finished-stop_all = different finished_text stop_all_text (unfold text_eq in refl)

  finished-ready : finished_text ≢ ready_text
  finished-ready = different finished_text ready_text (unfold text_eq in refl)

  error_code-IsCode : (status : Option Text) → IsCode status (error_code redis status)
  error_code-IsCode status = ground (
    arith,
    is_text_iff finished_text status,
    is_text_iff stop_all_text status,
    is_text_iff ready_text status,
    finished-stop_all,
    finished-ready,
  )

  find_each-first :
      (scan_id : Text) (indexes : List ℕ) (s : redis.State)
      → find_each redis scan_id indexes s ≡ ok (first_in (has_key scan_id s) indexes)
  unfolding OpenvasDb.get_key_count
  find_each-first scan_id [] s = refl
  find_each-first scan_id (index ∷ indexes) s = ground (arith, find_each-first scan_id indexes s)

  status_of-Ends :
      (kb : Option ℕ) (scan_id : Text) (s : redis.State)
      → Ends (λ _. Unit {0}) (status_of redis kb scan_id s)
  unfolding get_status BaseKbDb.get_single_item OpenvasDb.get_single_item
  status_of-Ends none scan_id s = (_, refl, tt)
  status_of-Ends (some index) scan_id s = (_, refl, tt)

  -- Where the server has a number of databases, `check_consistency` gives the least database from 1
  -- on that has a key for the scan, and an error code that is -1 just if the status there is
  -- finished, -2 just if it is stop_all or ready, and 0 in all other cases.
  pub check_consistency-IsCode :
      (max_dbindex : Option ℕ) (max : ℕ) (scan_id : Text) (s : redis.State)
      → max_database_index redis max_dbindex s ≡ ok max
      → 1 ≤ max
      → (kb : Option ℕ) × (status : Option Text) × (code : ℤ) × (check_consistency redis max_dbindex
            scan_id s
          ≡ ok (kb, code))
        × IsLeast (has_key scan_id s) 1 max kb
        × (status_of redis kb scan_id s ≡ ok status)
        × IsCode status code
  unfolding check_consistency find_kb_database_by_scan_id
  check_consistency-IsCode max_dbindex max scan_id s e h =
      let kb = first_in (has_key scan_id s) (range 1 max) in
      let (status, read, _) = status_of-Ends kb scan_id s in
      (
        kb,
        status,
        error_code redis status,
        rw e (rw (find_each-first scan_id (range 1 max) s) (rw read refl)),
        first_in-range (has_key scan_id s) max h,
        read,
        error_code-IsCode status,
      )
