-- ===== src/Server/Tests/Runs.antt =====
-- The theorem on a service over time, for two uploads with restarts between them.
use asyn_log_system.Server.Runs.Durable.{run-answers}
use asyn_log_system.Server.Service.{Session}
use asyn_log_system.Server.Runs.{IsWritable}
use asyn_log_system.Server.Runs.Restart.{Restarted}
use asyn_log_system.Server.Tests.Orders.{orders_of_one, orders_of_two}
use asyn_log_system.Prelude.{subst, sym, inl, inr}
use asyn_log_system.Server.DataManager.{construct, World}
use asyn_log_system.Server.DataManager.Items.{IsPlain}
use asyn_log_system.Server.Runs.{
  run, passed, ends, called, restarted, entry_age, from_age, clock, recorded, CanRecord, request,
  IsRecordable, Happens, restart, IsKeepable, Event,
}
use asyn_log_system.Prelude.{ok, ◌≡◌, ◌≢◌, refl, [], ℕ, arith, ◌∷◌, List}
use asyn_log_system.Prelude.Table.{assign, find, values, Table}
use asyn_log_system.Server.Url.{from_hex, url_decode}
use asyn_log_system.Prelude.Text.{ne_of_text_eq, Text, codes, c_str, text_eq}
use asyn_log_system.Server.Store.{
  answers_of, makes_get, makes_put, key, stored_bytes, both, known, stored_path, deep, type_of, low,
  after, answer, Answer, Call, Kind, answers, dir_of,
}
use asyn_log_system.Server.DataManager.Entry.{to_json, to_array, StorageInfo}
use asyn_log_system.Server.Tests.Calls.{low-IsStorable, deep-IsStorable, config-IsUsable}
use asyn_log_system.Server.Tests.Transfers.{put, get, decoder, put-IsUpload}
use asyn_log_system.Server.Tests.Sample.{bundle, host, config, empty_disk}
use asyn_log_system.Json.Sample.{json, json_laws}

abbrev pub entry_low : StorageInfo
entry_low = record {
  mtime = 1700000000;
  atime = 1700000000;
  fsize = 3;
  storage_path = codes "./low_storage/a.txt";
  url = codes "/download/low_storage/a.txt";
}

abbrev pub entry_deep : StorageInfo
entry_deep = record {
  mtime = 1700003600;
  atime = 1700003600;
  fsize = 4;
  storage_path = codes "./deep_storage/a.txt";
  url = codes "/download/deep_storage/a.txt";
}

pub entry-IsPlain : IsPlain entry_low × IsPlain entry_deep
unfolding c_str
entry-IsPlain = (
  record {
    mtime_small = omega arith;
    atime_small = omega arith;
    fsize_small = omega arith;
    path_plain = refl;
    url_plain = refl;
  },
  record {
    mtime_small = omega arith;
    atime_small = omega arith;
    fsize_small = omega arith;
    path_plain = refl;
    url_plain = refl;
  },
)

abbrev pub table_low : Table StorageInfo
table_low = (entry_low.url, entry_low) ∷ []

abbrev pub table_both : Table StorageInfo
table_both = (entry_low.url, entry_low) ∷ (entry_deep.url, entry_deep) ∷ []

low-IsWritable : IsWritable json host config (entry_low ∷ [])
unfolding to_array to_json c_str
low-IsWritable = record {
  body = to_array json (entry_low ∷ []) json.null;
  written = refl;
  short = omega arith;
  fits = omega arith;
}

both-IsWritable :
    IsWritable json host config (entry_low ∷ entry_deep ∷ [])
    × IsWritable json host config (entry_deep ∷ entry_low ∷ [])
unfolding to_array to_json c_str
both-IsWritable = (
  record {
    body = to_array json (entry_low ∷ entry_deep ∷ []) json.null;
    written = refl;
    short = omega arith;
    fits = omega arith;
  },
  record {
    body = to_array json (entry_deep ∷ entry_low ∷ []) json.null;
    written = refl;
    short = omega arith;
    fits = omega arith;
  },
)

pub tables-IsRecordable :
    IsRecordable json host config table_low × IsRecordable json host config table_both
unfolding values
tables-IsRecordable = (
  λ infos p.
      subst (IsWritable json host config) (sym (orders_of_one entry_low infos p)) low-IsWritable,
  λ infos p. elim (orders_of_two entry_low entry_deep infos p) [
    | inl same ↦ subst (IsWritable json host config) (sym same) both-IsWritable.0
    | inr turned ↦ subst (IsWritable json host config) (sym turned) both-IsWritable.1
  ],
)

abbrev events : List Event
events =
    restart
    ∷ request (put "low")
    ∷ restart
    ∷ request (get "/download/low_storage/a.txt")
    ∷ clock 1700003600
    ∷ request (put "deep")
    ∷ restart
    ∷ request (get "/download/deep_storage/a.txt")
    ∷ restart
    ∷ request (get "/download/low%5fstorage/a.txt")
    ∷ []

abbrev calls : List Call
calls =
    Call.put low (codes "a.txt") (codes "hi!")
    ∷ Call.get low (codes "a.txt")
    ∷ Call.put deep (codes "a.txt") (codes "hi!")
    ∷ Call.get deep (codes "a.txt")
    ∷ Call.get low (codes "a.txt")
    ∷ []

abbrev given : List Answer
given = (200, []) ∷ (200, codes "hi!") ∷ (200, []) ∷ (200, codes "hi!") ∷ (200, codes "hi!") ∷ []

abbrev Goes : List Event → List Call → ℕ → Table StorageInfo → Type 0
Goes = Happens json (decoder "a.txt") bundle host config

later_half :
    Goes
      (request (put "deep")
        ∷ restart
        ∷ request (get "/download/deep_storage/a.txt")
        ∷ restart
        ∷ request (get "/download/low%5fstorage/a.txt")
        ∷ [])
      (Call.put deep (codes "a.txt") (codes "hi!")
        ∷ Call.get deep (codes "a.txt")
        ∷ Call.get low (codes "a.txt")
        ∷ [])
      1700003600
      table_low
unfolding url_decode from_hex type_of dir_of CanRecord recorded find assign text_eq from_age
    entry_age stored_bytes
later_half =
    called _ _ _ _ _ _
      (makes_put _ deep (codes "a.txt") (codes "hi!") refl (put-IsUpload "a.txt" "deep")
        deep-IsStorable)
      (entry-IsPlain.1, tables-IsRecordable.1)
      (restarted _ _ _ _ (
        called _ _ _ _ _ _ (makes_get _ deep (codes "a.txt") refl) tt (
          restarted _ _ _ _
            (called _ _ _ _ _ _ (makes_get _ low (codes "a.txt") refl) tt (ends _ _)))))

events-Happens : Goes events calls 1700000000 []
unfolding url_decode from_hex type_of dir_of CanRecord recorded find assign text_eq from_age
    entry_age stored_bytes
events-Happens = restarted _ _ _ _ (
    called _ _ _ _ _ _
      (makes_put _ low (codes "a.txt") (codes "hi!") refl (put-IsUpload "a.txt" "low")
        low-IsStorable)
      (entry-IsPlain.0, tables-IsRecordable.0)
      (restarted _ _ _ _ (
        called _ _ _ _ _ _ (makes_get _ low (codes "a.txt") refl) tt
          (passed _ _ _ _ _ later_half))))

no_stored : (k : Kind) (name : Text) → config.storage_info ≢ stored_path config k name
unfolding dir_of text_eq
no_stored low name = ne_of_text_eq _ _ refl
no_stored deep name = ne_of_text_eq _ _ refl

pub config-IsKeepable : IsKeepable host config
unfolding text_eq
config-IsKeepable = record {
  opens = refl;
  readable = refl;
  no_stored = no_stored;
  no_unpacked = λ m. ne_of_text_eq _ _ refl;
}

run-answers_example :
    (w : World) × (s : Session) × (construct json host config empty_disk ≡ ok w)
    × (run json bundle
          (decoder "a.txt")
          host
          config
          []
          0
          (λ t. [])
          events
          (record { world = w; replies = [] })
        ≡ ok s)
    × (answers_of s.replies ≡ given)
    × (w' : World) × (construct json host config s.world.disk ≡ ok w')
    × Restarted config s.world w'
unfolding answers answer after find assign text_eq known both key
run-answers_example =
    run-answers json json_laws bundle (decoder "a.txt") host config [] 0 (λ t. []) config-IsUsable
      config-IsKeepable events calls empty_disk given
      (record { no_table = refl; no_file = λ k name ne. refl; no_unpacked = λ m ne. refl })
      events-Happens refl
