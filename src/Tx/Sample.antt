-- ===== src/Tx/Sample.antt =====
-- A small transaction of deploy/bot/pdgtx.py, and a disk that an interrupted run of it leaves.
use proxy_gateway_plus.Prelude.{
  String, true, Option, none, some, List, [], ◌∷◌, String_eq, Option_eq, ◌==◌, if◌then◌else◌,
}
use proxy_gateway_plus.Tx.{
  preparing, applying, schema_version, Target, normal, Image, kept, Meta, Disk, Files, absent,
  regular, write,
}
use proxy_gateway_plus.Tx.Action.{restart}
use proxy_gateway_plus.Tx.Effect.{Fate, done, cut_after, Tx, World}
use proxy_gateway_plus.Tx.Commit.{Env, free}

abbrev pub conf_path : String
conf_path = "/etc/mosdns/config.yaml"

abbrev pub where_is : String → Option String
where_is name = if name == "mosdns_conf" then some conf_path else none

-- The digest is the text itself.
abbrev pub calm : Env
calm = record {
  sha = λ d. d;
  resolve = where_is;
  lock = free;
  derivers = [];
  unit_state = λ u. some "active";
  base = [];
  after = [];
  verdicts = λ t. true ∷ [];
  units_known = true;
  act = λ a. true;
  stable = λ u w. true;
  runtime_restored = true;
  keep = 20;
}

abbrev pub old_conf : Files
old_conf p = if conf_path == p then regular "old" else absent

abbrev pub new_conf : Target
new_conf = record {
  name = "mosdns_conf";
  path = conf_path;
  content = some "new";
  expect = some "old";
  existed = true;
}

abbrev pub one_change : Tx
one_change = record {
  state = preparing;
  mode = normal;
  targets = new_conf ∷ [];
  watches = [];
  read_digests = [];
  actions = restart "mosdns" ∷ [];
  guards = [];
  intended = [];
  images = [];
}

abbrev pub idle_disk : Disk
idle_disk = record { files = old_conf; saved = none; before = none; others = [] }

abbrev pub starts_with_fates : List Fate → World
starts_with_fates fates = record { tx = one_change; disk = idle_disk; fates = fates }

-- Cut off after the file was written, and before the state OBSERVING.
abbrev pub cut_in_the_middle : List Fate
cut_in_the_middle = done ∷ done ∷ done ∷ done ∷ done ∷ done ∷ done ∷ done ∷ cut_after ∷ []

-- The disk that it leaves.
abbrev pub stuck_meta : Meta
stuck_meta = record {
  version = schema_version;
  state = applying;
  names = ("mosdns_conf", conf_path) ∷ [];
  intended = ("mosdns_conf", some "new") ∷ [];
}

abbrev pub stuck_images : List (String × Image)
stuck_images = ("mosdns_conf", kept (some "old") "old") ∷ []

abbrev pub stuck : World
stuck = record {
  tx = one_change;
  disk = record {
    files = write conf_path (regular "new") old_conf;
    saved = some stuck_meta;
    before = some stuck_images;
    others = [];
  };
  fates = [];
}
