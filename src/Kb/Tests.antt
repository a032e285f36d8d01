-- ===== src/Kb/Tests.antt =====
-- The theorems about the knowledge bases at concrete inputs.
use ospd_openvas.Kb.Server.{
  server_sets, server_lists, write_field, server_hashes, empty_server, Memory, server,
}
use ospd_openvas.Kb.Status.{
  stop_scan-scan_is_stopped, check_consistency-IsCode, IsCode, stop_all_text, has_key,
}
use ospd_openvas.Kb.KbDb.{target_is_finished, scan_is_stopped, internal, stop_scan}
use ospd_openvas.Kb.Delivery.{
  run_events-pushed, pushed, name_of, fetch, push, results, run_events, Event,
}
use ospd_openvas.Kb.Allocation.{
  get_new_kb_database-IsLeast, IsTaken, in_use, get_new_kb_database-release_database,
  get_new_kb_database-distinct,
}
use ospd_openvas.Kb.MainDb.{
  status_of, release_database, check_consistency, try_database, get_new_kb_database, dbindex_name,
  main_ctx,
}
use ospd_openvas.Py.Order.{count_up, range}
use ospd_openvas.Kb.First.{IsLeast}
use ospd_openvas.Kb.BaseKbDb.{ctx_of, flush}
use ospd_openvas.Prelude.{
  ◌≤◌, none, ◌≡◌, ◌≢◌, some, not, refl, ◌++◌, true, false, ◌∷◌, Option, arith, ℕ, List, [],
}
use ospd_openvas.Py.Result.{ok}
use ospd_openvas.Prelude.Int.{ℤ}
use ospd_openvas.Py.Text.{codes, text_eq, Text}
use mathlib.Core.List.{reverse}

-- Database 1 is in use.
abbrev one_used : Memory
one_used = write_field main_ctx dbindex_name 1 true empty_server

get_new_kb_database-IsLeast_example :
    (found : Option ℕ) × (new : Memory) × (get_new_kb_database server none one_used
      ≡ ok (found, new))
    × IsLeast (λ i. not (in_use server one_used i)) 1 4 found
    × IsTaken server found one_used new
get_new_kb_database-IsLeast_example =
    get_new_kb_database-IsLeast server none 4 one_used server_hashes refl (omega arith)

-- The second database is the first that is free.
second_taken : (new : Memory) × (get_new_kb_database server none one_used ≡ ok (some 2, new))
unfolding get_new_kb_database try_database flush range count_up text_eq
second_taken = (_, refl)

get_new_kb_database-release_database_example :
    (i : ℕ) × (new : Memory) × (get_new_kb_database server none (release_database server 1 one_used)
      ≡ ok (some i, new))
    × (i ≤ 1)
get_new_kb_database-release_database_example =
    get_new_kb_database-release_database server none 4 1 one_used server_hashes refl (omega arith)
      (omega arith)

third_taken : (new : Memory) × (get_new_kb_database server none second_taken.0 ≡ ok (some 3, new))
unfolding get_new_kb_database try_database flush range count_up text_eq second_taken
third_taken = (_, refl)

get_new_kb_database-distinct_example : ◌≢◌ {A = ℕ} 2 3
get_new_kb_database-distinct_example =
    get_new_kb_database-distinct server none 4 one_used second_taken.0 third_taken.0 2 3
      server_hashes refl refl (omega arith) second_taken.1 third_taken.1

abbrev sample_scan : Text
sample_scan = codes "scan1"

abbrev sample_events : List Event
sample_events =
    push (codes "a" ∷ codes "b" ∷ [])
    ∷ fetch
    ∷ push (codes "c" ∷ [])
    ∷ push (codes "d" ∷ [])
    ∷ fetch
    ∷ push (codes "e" ∷ [])
    ∷ []

run_events-pushed_example :
    (got : List Text) × (last : Memory) × (run_events server results 1 sample_events empty_server
      ≡ ok (got, last))
    × (got ++ reverse (server.lrange (ctx_of 1) (name_of results) last)
        ≡ reverse (server.lrange (ctx_of 1) (name_of results) empty_server) ++ pushed sample_events)
run_events-pushed_example =
    run_events-pushed server results 1 sample_events empty_server server_lists

stop_scan-scan_is_stopped_example :
    (new : Memory) × (stop_scan server 1 sample_scan empty_server ≡ ok new)
    × (server.lrange (ctx_of 1) (internal sample_scan) new ≡ stop_all_text ∷ [])
    × (scan_is_stopped server 1 sample_scan new ≡ ok true)
    × (target_is_finished server 1 sample_scan new ≡ ok false)
stop_scan-scan_is_stopped_example =
    stop_scan-scan_is_stopped server 1 sample_scan empty_server server_lists server_sets

check_consistency-IsCode_example :
    (kb : Option ℕ) × (status : Option Text) × (code : ℤ) × (check_consistency server none
        sample_scan one_used
      ≡ ok (kb, code))
    × IsLeast (has_key server sample_scan one_used) 1 4 kb
    × (status_of server kb sample_scan one_used ≡ ok status)
    × IsCode server status code
check_consistency-IsCode_example =
    check_consistency-IsCode server none 4 sample_scan one_used refl (omega arith)
