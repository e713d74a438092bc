-- ===== src/Server/Tests/Calls.antt =====
-- The theorem on sequences of requests at an upload, a download and an unknown path.
use asyn_log_system.Server.Service.Paths.{is_low_path}
use asyn_log_system.Server.Handler.{gen_handler}
use asyn_log_system.Server.Store.Coheres.{Coheres}
use asyn_log_system.Server.Service.{Reply, Session, Request}
use asyn_log_system.Server.Url.{from_hex, url_decode}
use asyn_log_system.Prelude.Text.{c_str, has, Text, ne_of_text_eq, text_eq, begins, codes, contains}
use asyn_log_system.Prelude.{
  ◌==◌, false, ◌≢◌, length, ◌≤◌, ◌++◌, ok, refl, ◌≡◌, arith, ◌∷◌, [], List,
}
use asyn_log_system.Prelude.Table.{assign, find}
use asyn_log_system.Server.Store.{
  ArePlaces, IsFileName, Call, MakesAll, handle_all, Answer, makes_none, makes_more, makes_put,
  makes_get, makes_unknown, Kind, low, deep, IsUsable, IsStorable, stored_path, stored_url, type_of,
  dir_of, answers, answer, answers_of, after_all, after, known, both, key, stored_bytes, Unpacks,
}
use asyn_log_system.Server.Store.Refine.{gen_handler-answers}
use asyn_log_system.Server.Tests.Transfers.{put, get, decoder, put-IsUpload, deep-IsServable}
use asyn_log_system.Json.Sample.{json}
use asyn_log_system.Server.Tests.Sample.{bundle, host, config, fresh}

abbrev requests : List Request
requests =
    put "low"
    ∷ put "deep"
    ∷ get "/download/low%5fstorage/a.txt"
    ∷ get "/download/deep_storage/a.txt"
    ∷ get "/favicon.ico"
    ∷ []

abbrev calls : List Call
calls =
    Call.put low (codes "a.txt") (codes "hi!")
    ∷ Call.put deep (codes "a.txt") (codes "hi!")
    ∷ Call.get low (codes "a.txt")
    ∷ Call.get deep (codes "a.txt")
    ∷ Call.unknown
    ∷ []

abbrev given : List Answer
given = (200, []) ∷ (200, []) ∷ (200, codes "hi!") ∷ (200, codes "hi!") ∷ (404, []) ∷ []

is_file_name :
    (name : Text)
    → text_eq name [] ≡ false
    → text_eq name (codes ".") ≡ false
    → text_eq name (codes "..") ≡ false
    → has (λ x. x == b'/') name ≡ false
    → c_str name ≡ name
    → IsFileName name
is_file_name name a b c d e = record {
  some_byte = ne_of_text_eq _ _ a;
  no_dot = ne_of_text_eq _ _ b;
  no_dots = ne_of_text_eq _ _ c;
  no_slash = d;
  plain = e;
}

a_txt-IsFileName : IsFileName (codes "a.txt")
unfolding text_eq has c_str
a_txt-IsFileName = is_file_name _ refl refl refl refl refl

config-ArePlaces : ArePlaces config
unfolding text_eq has c_str
config-ArePlaces = record {
  low_name = codes "low_storage";
  deep_name = codes "deep_storage";
  uncompress_name = codes "uncompress";
  storage_name = codes "storage.data";
  low_at = refl;
  deep_at = refl;
  uncompress_at = refl;
  storage_at = refl;
  file_names = (
    is_file_name _ refl refl refl refl refl,
    (
      is_file_name _ refl refl refl refl refl,
      (is_file_name _ refl refl refl refl refl, (is_file_name _ refl refl refl refl refl, tt)),
    ),
  );
  distinct = (
    (
      ne_of_text_eq _ _ refl,
      (
        ne_of_text_eq _ _ refl,
        (
          ne_of_text_eq _ _ refl,
          (ne_of_text_eq _ _ refl, (ne_of_text_eq _ _ refl, (ne_of_text_eq _ _ refl, tt))),
        ),
      ),
    ),
    (
      (
        ne_of_text_eq _ _ refl,
        (
          ne_of_text_eq _ _ refl,
          (ne_of_text_eq _ _ refl, (ne_of_text_eq _ _ refl, (ne_of_text_eq _ _ refl, tt))),
        ),
      ),
      (
        (
          ne_of_text_eq _ _ refl,
          (ne_of_text_eq _ _ refl, (ne_of_text_eq _ _ refl, (ne_of_text_eq _ _ refl, tt))),
        ),
        (
          (ne_of_text_eq _ _ refl, (ne_of_text_eq _ _ refl, (ne_of_text_eq _ _ refl, tt))),
          (
            (ne_of_text_eq _ _ refl, (ne_of_text_eq _ _ refl, tt)),
            ((ne_of_text_eq _ _ refl, tt), (tt, tt)),
          ),
        ),
      ),
    ),
  );
}

pub low-IsStorable : IsStorable bundle host config low (codes "a.txt") (codes "hi!")
unfolding text_eq dir_of stored_bytes Unpacks
low-IsStorable = record {
  named = λ e. cc e;
  file_name = a_txt-IsFileName;
  apart = ne_of_text_eq _ _ refl;
  opens = refl;
  fits = omega arith;
  readable = refl;
  unpacks = tt;
}

pub deep-IsStorable : IsStorable bundle host config deep (codes "a.txt") (codes "hi!")
unfolding text_eq dir_of stored_bytes Unpacks is_low_path contains begins
deep-IsStorable = record {
  named = λ e. cc e;
  file_name = a_txt-IsFileName;
  apart = ne_of_text_eq _ _ refl;
  opens = refl;
  fits = omega arith;
  readable = refl;
  unpacks = record { not_low = refl; nonempty = λ e. omega arith; servable = deep-IsServable };
}

requests-MakesAll : MakesAll (decoder "a.txt") bundle host config requests calls
unfolding url_decode from_hex contains begins text_eq type_of dir_of
requests-MakesAll =
    makes_more _ _ _ _
      (makes_put _ low (codes "a.txt") (codes "hi!") refl (put-IsUpload "a.txt" "low")
        low-IsStorable)
      (makes_more _ _ _ _
        (makes_put _ deep (codes "a.txt") (codes "hi!") refl (put-IsUpload "a.txt" "deep")
          deep-IsStorable)
        (makes_more _ _ _ _ (makes_get _ low (codes "a.txt") refl) (
          makes_more _ _ _ _ (makes_get _ deep (codes "a.txt") refl) (
            makes_more _ _ _ _ (makes_unknown _ (codes "/favicon.ico") refl refl refl refl)
              makes_none))))

dirs_long : (k : Kind) → 2 ≤ length (dir_of config k)
unfolding dir_of
dirs_long low = omega arith
dirs_long deep = omega arith

paths_apart : (n m : Text) → stored_path config low n ≢ stored_path config deep m
unfolding dir_of text_eq
paths_apart n m = ne_of_text_eq _ _ refl

urls_apart : (n m : Text) → stored_url config low n ≢ stored_url config deep m
unfolding dir_of text_eq
urls_apart n m = ne_of_text_eq _ _ refl

unpacked_apart : (k : Kind) (n m : Text) → stored_path config k n ≢ config.uncompress_dir ++ m
unfolding dir_of text_eq
unpacked_apart low n m = ne_of_text_eq _ _ refl
unpacked_apart deep n m = ne_of_text_eq _ _ refl

pub config-IsUsable : IsUsable config
unfolding contains begins
config-IsUsable = record {
  places = config-ArePlaces;
  prefixed = refl;
  low_named = refl;
  long = dirs_long;
  paths_apart = paths_apart;
  urls_apart = urls_apart;
  unpacked_apart = unpacked_apart;
}

fresh-Coheres : Coheres bundle host config fresh.world []
unfolding find
fresh-Coheres = record {
  free = refl;
  file_at = refl;
  files = λ k name ne e. cc e;
  unpacked = λ m ne e. cc e;
  stored = λ k name content e. absurd (cc e);
}

gen_handler-answers_example :
    (s : Session) × (rs : List Reply) × (handle_all
        (gen_handler json bundle (decoder "a.txt") host config [] 0 (λ t. []))
        requests
        fresh
      ≡ ok s)
    × (s.replies ≡ [] ++ rs)
    × (answers_of rs ≡ given)
    × Coheres bundle host config s.world (after_all calls [])
unfolding answers answer after find assign text_eq known both key
gen_handler-answers_example =
    gen_handler-answers json bundle (decoder "a.txt") host config [] 0 (λ t. []) requests calls
      fresh [] given requests-MakesAll refl config-IsUsable fresh-Coheres
