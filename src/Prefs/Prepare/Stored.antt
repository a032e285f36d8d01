-- ===== src/Prefs/Prepare/Stored.antt =====
-- What the knowledge base holds after a preparation (ospd_openvas/preferencehandler.py).
use ospd_openvas.Py.Dict.Laws.{get-put}
use ospd_openvas.Prelude.{
  append_assoc, arith, refl, append-nil, ap, sym, false, ◌∙◌, [], true, ◌≡◌, none, ◌∷◌, some, ◌++◌,
  Option, List, Bool, ℕ,
}
use ospd_openvas.Py.Dict.{put, get}
use ospd_openvas.Py.Result.{Ends->>=, key_error, raise, ok, Ends}
use ospd_openvas.Kb.Status.{elements-one}
use ospd_openvas.Prefs.Prepare.{add_each, store_ports, prepare_ports_for_openvas}
use ospd_openvas.Network.Ports.{valid_port_list}
use ospd_openvas.Scan.{Target, ScanInfo, Table}
use ospd_openvas.Kb.Redis.{SetLaws, ListLaws, Redis}
use ospd_openvas.Kb.KbDb.{scanprefs, add_scan_preferences}
use ospd_openvas.Scan.Collection.{get_ports}
use ospd_openvas.Kb.BaseKbDb.{ctx_of}
use ospd_openvas.Py.Text.{codes, Text}
use ospd_openvas.Kb.BaseKbDb
use ospd_openvas.Kb.OpenvasDb

module _ (redis : Redis) (index : ℕ) (scan_id : Text) where
  -- The preferences of the scan.
  abbrev pub stored : redis.State → List Text
  stored s = redis.lrange (ctx_of index) (scanprefs redis scan_id) s

  add_scan_preferences-stored :
      (p : Text) (s : redis.State)
      → ListLaws redis
      → SetLaws redis
      → Ends
          (λ new. stored new ≡ stored s ++ (p ∷ []))
          (add_scan_preferences redis index scan_id (p ∷ []) s)
  unfolding add_scan_preferences BaseKbDb.add_single_item OpenvasDb.add_single_item
  add_scan_preferences-stored p s laws sets = (
    redis.rpush (ctx_of index) (scanprefs redis scan_id) (redis.elements (p ∷ [])) s,
    refl,
    laws.lrange_rpush (ctx_of index) (scanprefs redis scan_id) (redis.elements (p ∷ [])) s
        ∙ ap (λ l. stored s ++ l) (elements-one redis p sets),
  )

  pub add_each-stored :
      (prefs : List Text) (s : redis.State)
      → ListLaws redis
      → SetLaws redis
      → Ends (λ new. stored new ≡ stored s ++ prefs) (add_each redis index scan_id prefs s)
  add_each-stored [] s laws sets = (s, refl, sym (append-nil (stored s)))
  add_each-stored (p ∷ prefs) s laws sets =
      Ends->>= _ _ (add_scan_preferences-stored p s laws sets) (λ s1 e.
        let (new, run, e1) = add_each-stored prefs s1 laws sets in
        (new, run, e1 ∙ ap (λ l. l ++ prefs) e ∙ append_assoc (stored s) (p ∷ []) prefs))

  abbrev pub port_prefs : Bool → Text → List Text
  port_prefs true ports = (codes "port_range|||" ++ ports) ∷ []
  port_prefs false ports = []

  abbrev ports_result : Bool → Text → Option Text
  ports_result true ports = some ports
  ports_result false ports = none

  store_ports-stored :
      (valid : Bool) (ports : Text) (table : Table) (s : redis.State)
      → ListLaws redis
      → SetLaws redis
      → (new : redis.State) × (store_ports redis index scan_id valid ports table s
          ≡ ok (ports_result valid ports, (table, new)))
        × (stored new ≡ stored s ++ port_prefs valid ports)
  store_ports-stored false ports table s laws sets = (s, refl, sym (append-nil (stored s)))
  store_ports-stored true ports table s laws sets =
      let (new, run, e) = add_each-stored (port_prefs true ports) s laws sets in
      (new, rw run refl, e)

  -- For a scan whose ports were not taken out and are valid or not, without an exception:
  -- `prepare_ports_for_openvas` stores the port range exactly if the ports are valid and gives the
  -- ports or False. It takes them out, so that a second call raises a KeyError.
  pub prepare_ports_for_openvas-stored :
      (table : Table) (s : redis.State) (info : ScanInfo) (target : Target) (ports : Text)
      (valid : Bool)
      → ListLaws redis
      → SetLaws redis
      → get scan_id table ≡ some info
      → info.target ≡ some target
      → target.ports ≡ some ports
      → valid_port_list ports ≡ ok valid
      → (new : redis.State) × (table1 : Table) × (prepare_ports_for_openvas redis index scan_id
            table s
          ≡ ok (ports_result valid ports, (table1, new)))
        × (stored new ≡ stored s ++ port_prefs valid ports)
        × (prepare_ports_for_openvas redis index scan_id table1 new ≡ raise key_error)
  unfolding prepare_ports_for_openvas get_ports
  prepare_ports_for_openvas-stored table s info target ports valid laws sets found e f v =
      let taken : ScanInfo = record info { target = some (record target { ports = none }) } in
      let table1 = put scan_id taken table in
      let (new, run, held) = store_ports-stored valid ports table1 s laws sets in
      (
        new,
        table1,
        ground (arith, found, e, f, v, run),
        held,
        ground (arith, get-put scan_id taken table),
      )
