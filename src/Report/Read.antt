-- ===== src/Report/Read.antt =====
-- `report_results` of ospd_openvas/daemon.py reads a message as Report/Expected says.
use ospd_openvas.Report.{
  host_detail_message, log_message, host_start_end, errmsg, quality, get_severity_score, add_kind,
  other_type, hosts_excluded, looked_up, hosts_count, kind_of, alarm_message, describe, deadhost,
  has_no_vt, VtAux, Kind, RawResult, Vulnerabilities,
}
use ospd_openvas.Prelude.{
  ◌∙◌, ap, sym, subst, true, String, arith, refl, ◌∷◌, false, none, some, ◌≡◌, [], All, List, ◌≢◌,
  Option,
}
use ospd_openvas.Py.Text.{text_eq, text_eq_iff, codes, Text}
use ospd_openvas.Py.Dict.Laws.{text_eq_of_ne}
use ospd_openvas.Prefs.Credentials.{is_word}
use ospd_openvas.Scan.Collection.{or_empty}
use ospd_openvas.Py.Dict.{get}
use ospd_openvas.Report.Expected.{
  dead_value, denied_value, unknown_vt, plain_qod, typed_qod, no_vt, version_2, version_3,
  no_vector, other_version, an_error, a_start, an_end, a_log, a_detail, an_alarm, dead_hosts,
  total_hosts, excluded_hosts, nothing, Named, Adds, known_types, Scored,
}
use ospd_openvas.Py.Result.{ok}
use ospd_openvas.Network.Ports.{is_empty}
use ospd_openvas.Prelude.Int.{pos, ℤ}
use ospd_openvas.Scan.{ScanResult}
use ospd_openvas.Py.Number.{int}
use ospd_openvas.Scan.Running.Started.{Has}

module _ (v : Vulnerabilities) where
  abbrev pub number_of : Option ℤ → ℤ
  number_of none = pos 0
  number_of (some n) = n

  abbrev pub dead_in : Kind → Text → ℤ
  dead_in deadhost value = number_of (int value)
  dead_in _ value = pos 0

  abbrev pub HasNumber : Kind → Text → Type 0
  HasNumber deadhost value = Has (int value)
  HasNumber hosts_count value = Has (int value)
  HasNumber hosts_excluded value = Has (int value)
  HasNumber _ value = Unit

  -- What the body of the loop computes for a message of the kind.
  abbrev pub Gives : Kind → RawResult → List ScanResult → ℤ → Type 0
  Gives kind res added more =
      (name : Text) × (qod : Text) × (describe v (looked_up v kind res) ≡ ok (name, qod))
      × (add_kind v kind res (looked_up v kind res) name qod [] ≡ added)
      × (dead_in kind res.value ≡ more)
      × HasNumber kind res.value

  is_word-eq : (word : String) (s : Text) → s ≡ codes word → is_word word s ≡ true
  is_word-eq word s e = (text_eq_iff s (codes word)).1 e

  is_word-of_ne : (word : String) (s : Text) → s ≢ codes word → is_word word s ≡ false
  is_word-of_ne word s h = text_eq_of_ne s (codes word) h

  quality-typed :
      (qod_type qod known : Text)
      → qod_type ≢ []
      → get qod_type v.qod_types ≡ some known
      → quality v qod_type qod ≡ ok known
  quality-typed [] qod known h e = absurd (h refl)
  quality-typed (c ∷ qod_type) qod known h e = rw e refl

  describe-Named :
      (kind : Kind) (res : RawResult) {vt : Option VtAux} {name qod : Text}
      → has_no_vt kind ≡ false
      → Named v res vt name qod
      → (looked_up v kind res ≡ vt) × (describe v vt ≡ ok (name, qod))
  describe-Named kind res e (dead_value h) = (ground (arith, e, h), refl)
  describe-Named kind res e (denied_value h) = (ground (arith, e, h), refl)
  describe-Named kind res e (unknown_vt h) = (ground (arith, e, h), refl)
  describe-Named kind res e (plain_qod vt dead denied found untyped) =
      (ground (arith, e, dead, denied, found), rw untyped refl)
  describe-Named kind res e (typed_qod vt qod dead denied found typed known) = (
    ground (arith, e, dead, denied, found),
    rw (quality-typed vt.qod_type vt.qod qod typed known) refl,
  )

  is_empty-of_ne : (s : Text) → s ≢ [] → is_empty s ≡ false
  is_empty-of_ne [] h = absurd (h refl)
  is_empty-of_ne (c ∷ s) h = refl

  severity-Scored :
      {vt : Option VtAux} {severity : Text}
      → Scored v vt severity
      → or_empty (get_severity_score v vt) ≡ severity
  unfolding text_eq
  severity-Scored no_vt = refl
  severity-Scored (version_2 vt e h) =
      ground (arith, is_word-eq "cvss_base_v2" _ e, is_empty-of_ne _ h)
  severity-Scored (version_3 vt e h) =
      ground
        (arith, ap (is_word "cvss_base_v2") e, is_word-eq "cvss_base_v3" _ e, is_empty-of_ne _ h)
  severity-Scored (no_vector vt e) = ground (arith, ap is_empty e)
  severity-Scored (other_version vt f g) =
      ground (arith, is_word-of_ne "cvss_base_v2" _ f, is_word-of_ne "cvss_base_v3" _ g)

  other_kind : (s : Text) → All (λ word. s ≢ codes word) known_types → kind_of s ≡ other_type
  other_kind s (a, (b, (c, (d, (e, (f, (g, (h, (i, _))))))))) = ground (
    arith,
    is_word-of_ne "ERRMSG" s a,
    is_word-of_ne "HOST_START" s b,
    is_word-of_ne "HOST_END" s c,
    is_word-of_ne "LOG" s d,
    is_word-of_ne "HOST_DETAIL" s e,
    is_word-of_ne "ALARM" s f,
    is_word-of_ne "DEADHOST" s g,
    is_word-of_ne "HOSTS_COUNT" s h,
    is_word-of_ne "HOSTS_EXCLUDED" s i,
  )

  Gives-kind :
      (res : RawResult) (kind : Kind) (word : Text) {added : List ScanResult} {more : ℤ}
      → kind_of word ≡ kind
      → res.result_type ≡ word
      → Gives kind res added more
      → Gives (kind_of res.result_type) res added more
  Gives-kind res kind word {added} {more} e f =
      subst (λ k. Gives k res added more) (sym (ap kind_of f ∙ e))

  -- A message that should be read in one way is read in that way.
  pub Gives-Adds :
      (res : RawResult) {added : List ScanResult} {more : ℤ}
      → Adds v res added more
      → Gives (kind_of res.result_type) res added more
  unfolding text_eq
  Gives-Adds res (an_error {name = name} {qod = qod} e named) =
      let (found, read) = describe-Named errmsg res refl named in
      Gives-kind res errmsg (codes "ERRMSG") refl e (name, qod, rw found read, refl, refl, tt)
  Gives-Adds res (a_start e) =
      Gives-kind res host_start_end (codes "HOST_START") refl e ([], [], refl, refl, refl, tt)
  Gives-Adds res (an_end e) =
      Gives-kind res host_start_end (codes "HOST_END") refl e ([], [], refl, refl, refl, tt)
  Gives-Adds res (a_log {name = name} {qod = qod} e named) =
      let (found, read) = describe-Named log_message res refl named in
      Gives-kind res log_message (codes "LOG") refl e (name, qod, rw found read, refl, refl, tt)
  Gives-Adds res (a_detail {name = name} {qod = qod} e named) =
      let (found, read) = describe-Named host_detail_message res refl named in
      Gives-kind res host_detail_message (codes "HOST_DETAIL") refl e
        (name, qod, rw found read, refl, refl, tt)
  Gives-Adds res (an_alarm {name = name} {qod = qod} e named scored) =
      let (found, read) = describe-Named alarm_message res refl named in
      Gives-kind res alarm_message (codes "ALARM") refl e
        (name, qod, rw found read, rw (found, severity-Scored scored) refl, refl, tt)
  Gives-Adds res (dead_hosts n e number) =
      Gives-kind res deadhost (codes "DEADHOST") refl e
        ([], [], refl, refl, ap number_of number, (n, number))
  Gives-Adds res (total_hosts n e number) =
      Gives-kind res hosts_count (codes "HOSTS_COUNT") refl e
        ([], [], refl, refl, refl, (n, number))
  Gives-Adds res (excluded_hosts n e number) =
      Gives-kind res hosts_excluded (codes "HOSTS_EXCLUDED") refl e
        ([], [], refl, refl, refl, (n, number))
  Gives-Adds res (nothing {name = name} {qod = qod} others named) =
      let (found, read) = describe-Named other_type res refl named in
      Gives-kind res other_type res.result_type (other_kind res.result_type others) refl
        (name, qod, rw found read, refl, refl, tt)
