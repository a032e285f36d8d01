-- ===== src/Kb/Server.antt =====
-- A server in memory, with the documented effects of Redis (see Kb/Redis): it shows that they can
-- hold together, and runs the tests.
use ospd_openvas.Prelude.{
  some, not, refl, ◌++◌, ◌&&◌, true, ◌∙◌, ◌==◌, false, Bool, ◌∷◌, Option, if◌then◌else◌, arith, ℕ,
  List, [],
}
use ospd_openvas.Py.Text.{text_eq, Text}
use ospd_openvas.Kb.Redis.{count_of, head_of, Redis, SetLaws, HashLaws, ListLaws, Context}
use ospd_openvas.Py.TextList.{fromkeys-NoRepeat, has_text, fromkeys, has_text-fromkeys}
use ospd_openvas.Py.TextList.Select.{select}
use mathlib.Core.List.{reverse}
use ospd_openvas.Py.Dict.Laws.{text_eq_refl}

-- The lists and the hash fields of every database.
pub record Memory : Type 0 where
  pub lists : ℕ → Text → List Text
  pub fields : ℕ → Text → ℕ → Bool

abbrev pub write : Context → Text → List Text → Memory → Memory
write ctx name items s = record s {
  lists = λ i key. if (i == ctx.index) && text_eq key name then items else s.lists i key;
}

abbrev pub write_field : Context → Text → ℕ → Bool → Memory → Memory
write_field ctx name field used s = record s {
  fields = λ i key f.
      if ((i == ctx.index) && text_eq key name) && (f == field) then used else s.fields i key f;
}

abbrev pub last_of : List Text → Option Text
last_of items = head_of (reverse items)

abbrev pub without_last : List Text → List Text
without_last [] = []
without_last (x ∷ []) = []
without_last (x ∷ y ∷ items) = x ∷ without_last (y ∷ items)

abbrev pub only : Text → List Text → List Text
only name [] = []
only name (x ∷ items) = name ∷ []

-- Four databases; a pattern is a key.
abbrev pub server : Redis
server = record {
  State = Memory;
  elements = fromkeys [];
  lrange = λ ctx name s. s.lists ctx.index name;
  lindex = λ ctx name s. head_of (s.lists ctx.index name);
  rpush = λ ctx name values s. write ctx name (s.lists ctx.index name ++ values) s;
  lpush = λ ctx name values s. write ctx name (reverse values ++ s.lists ctx.index name) s;
  lrem = λ ctx name value s.
      write ctx name (select (λ x. not (text_eq x value)) (s.lists ctx.index name)) s;
  rpop = λ ctx name s.
      (last_of (s.lists ctx.index name), write ctx name (without_last (s.lists ctx.index name)) s);
  delete = λ ctx name s. (count_of (s.lists ctx.index name), write ctx name [] s);
  keys = λ ctx name s. only name (s.lists ctx.index name);
  flushdb = λ ctx s. record {
    lists = λ i key. if i == ctx.index then [] else s.lists i key;
    fields = λ i key f. not (i == ctx.index) && s.fields i key f;
  };
  hsetnx = λ ctx name field s.
      (some (if s.fields ctx.index name field then 0 else 1), write_field ctx name field true s);
  hdel = λ ctx name field s. write_field ctx name field false s;
  hexists = λ ctx name field s. s.fields ctx.index name field;
  config_get_databases = λ s. some 4;
}

pub server_lists : ListLaws server
server_lists = record {
  lindex_head = λ ctx name s. refl;
  lrange_rpush = λ ctx name values s. ground (arith, text_eq_refl name);
  lrange_lpush = λ ctx name values s. ground (arith, text_eq_refl name);
  lrange_delete = λ ctx name s. ground (arith, text_eq_refl name);
  delete_count = λ ctx name s. refl;
}

pub server_sets : SetLaws server
server_sets = record {
  elements_same = λ value values. has_text-fromkeys value [] values ∙ unfold has_text in refl;
  elements_once = λ values. fromkeys-NoRepeat [] values tt;
}

pub server_hashes : HashLaws server
server_hashes = record {
  hsetnx_answer = λ ctx name field s. refl;
  hsetnx_hexists = λ ctx name field other s. ground (arith, text_eq_refl name);
  hsetnx_lrange = λ ctx name field other key s. refl;
  hdel_hexists = λ ctx name field other s. ground (arith, text_eq_refl name);
  flushdb_lrange = λ ctx other key s. refl;
  flushdb_hexists = λ ctx other key field s. refl;
}

abbrev pub empty_server : Memory
empty_server = record { lists = λ i key. []; fields = λ i key f. false }
