-- ===== src/Server/Runs/Durable.antt =====
-- src/server/Service.hpp and DataManager.hpp: a service that is stopped and started again at any
-- time answers as one map that is never lost.
use asyn_log_system.Server.Service.Effects.{IsNoDirectory}
use asyn_log_system.Server.Runs.Entries.{file_age}
use asyn_log_system.Server.DataManager.RwLock.{unlocked}
use asyn_log_system.Server.Store.Refine.{gen_handler-Makes, both-eq_some}
use asyn_log_system.Server.DataManager.{World, construct}
use asyn_log_system.Server.Runs.Uploads.{IsKept-IsPut}
use mathlib.Core.List.{Permᴰ}
use asyn_log_system.Server.Runs.Restart.{
  construct-missing, construct-IsKept, IsKept-Restarted, Coheres-Restarted, Restarted,
}
use asyn_log_system.Server.Runs.Kept.{IsKept-clock, IsKept}
use asyn_log_system.Server.Store.Coheres.{Coheres-clock, Coheres}
use asyn_log_system.Server.Store.Steps.{Effect}
use asyn_log_system.Server.DataManager.Entry.{StorageInfo}
use asyn_log_system.Prelude.Table.{values, find, Table}
use asyn_log_system.Server.Service.{Reply, Session, Request}
use asyn_log_system.Server.Runs.Kept.{IsKept-AfterRead}
use asyn_log_system.Server.Runs.{
  entry_age, ends, called, restarted, passed, CanRecord, Happens, Event, recorded, run, IsKeepable,
}
use asyn_log_system.Server.Store.{
  Kind, stored_path, after, answer, unknown, get, makes_put, put, Makes, Answer, after_all,
  answers_of, Call, answers, IsUsable,
}
use asyn_log_system.Server.Config.{Config}
use asyn_log_system.Prelude.{
  ◌≢◌, inr, none, refl, append_assoc, ap, ◌∙◌, ◌∷◌, some_injective, append-nil, sym, [], ◌++◌, ok,
  some, ◌≡◌, List, ℕ, Option,
}
use asyn_log_system.Prelude.Text.{Text}
use asyn_log_system.Json.{JsonLaws, Json}
use asyn_log_system.Server.Disk.{Host, Bundle, Disk}

-- Nothing has been stored yet on this disk.
pub record IsBlank (c : Config) (d : Disk) : Type 0 where
  pub no_table : d.nodes c.storage_info ≡ none
  pub no_file : (k : Kind) (name : Text) → name ≢ [] → d.nodes (stored_path c k name) ≡ none
  pub no_unpacked : (m : Text) → m ≢ [] → d.nodes (c.uncompress_dir ++ m) ≡ none

-- The service after its first start.
abbrev pub first : Config → Disk → World
first c d = record {
  manager = record { storage_file = c.storage_info; lock = unlocked; table = [] };
  disk = d;
}

no_directory : (d : Disk) (p : Text) → d.nodes p ≡ none → IsNoDirectory d p
no_directory d p e is_dir = cc (e, is_dir)

pub Coheres-first :
    (b : Bundle) (h : Host) (c : Config) (d : Disk) → IsBlank c d → Coheres b h c (first c d) []
unfolding find
Coheres-first b h c d blank = record {
  free = refl;
  file_at = refl;
  files = λ k name ne. no_directory d (stored_path c k name) (blank.no_file k name ne);
  unpacked = λ m ne. no_directory d (c.uncompress_dir ++ m) (blank.no_unpacked m ne);
  stored = λ k name content e. cc e;
}

pub IsKept-first :
    (j : Json) (c : Config) (d : Disk) → IsBlank c d → IsKept j c (first c d) d.now []
unfolding find file_age entry_age values
IsKept-first j c d blank = record {
  clock_at = refl;
  table = Permᴰ.nil;
  keyed = tt;
  plain = tt;
  kept = inr (blank.no_table, refl);
  aged = λ k name ne. rw (blank.no_file k name ne);
}

module _ (j : Json) (laws : JsonLaws j) (b : Bundle) (base64_decode : Text → Option Text) (h : Host)
    (c : Config) (strerror : Text) (junk : ℕ) (ctime : ℕ → Text) (u : IsUsable c)
    (can : IsKeepable h c) where
  IsKept-Effect :
      (req : Request) (call : Call) (s s' : Session) (t : Table Text) (now : ℕ)
      (e : Table StorageInfo)
      → Makes base64_decode b h c req call
      → Effect j b base64_decode h c strerror junk ctime call s s'
      → CanRecord j b h c call now e
      → Coheres b h c s.world t
      → IsKept j c s.world now e
      → IsKept j c s'.world now (recorded b c call now e)
  unfolding recorded
  IsKept-Effect req (put k name content) s s' t now e (makes_put _ _ _ _ decoded up storable) effect
        r co kept =
      IsKept-IsPut j laws b h c k name content s s' t now e effect u can storable co kept r
  IsKept-Effect req (get k name) s s' t now e makes effect r co kept =
      IsKept-AfterRead j h c s.world s'.world now e effect u can kept
  IsKept-Effect req unknown s s' t now e makes effect r co kept =
      IsKept-AfterRead j h c s.world s'.world now e effect u can kept

  -- What a service that stands for a map and keeps its entries does in the course of events.
  pub run-Happens :
      (events : List Event) (calls : List Call) (now : ℕ) (e : Table StorageInfo) (s : Session)
      (t : Table Text) (expected : List Answer)
      → Happens j base64_decode b h c events calls now e
      → answers calls t ≡ some expected
      → Coheres b h c s.world t
      → IsKept j c s.world now e
      → (s' : Session) × (rs : List Reply) × (run j b base64_decode h c strerror junk ctime events s
          ≡ ok s')
        × (s'.replies ≡ s.replies ++ rs)
        × (answers_of rs ≡ expected)
        × Coheres b h c s'.world (after_all calls t)
        × (later : ℕ) × (kept_after : Table StorageInfo) × IsKept j c s'.world later kept_after
  unfolding run answers answers_of after_all
  run-Happens _ _ now e s t expected (ends _ _) known co kept =
      (s, [], refl, sym (append-nil s.replies), some_injective known, co, now, e, kept)
  run-Happens _ _ now e s t expected (called req call events calls _ _ makes r rest) known co kept =
      let (a, more, e1, e2, e3) =
        both-eq_some (answer call t) (answers calls (after call t)) expected known in
      let (s1, served, (reply, sent, code, body), effect, co1) =
        gen_handler-Makes j b base64_decode h c strerror junk ctime req call s t a makes e1 u co in
      let (s2, rs, all, sent2, given, co2, later, e', kept2) =
        run-Happens events calls now (recorded b c call now e) s1 (after call t) more rest e2 co1
          (IsKept-Effect req call s s1 t now e makes effect r co kept) in
      (
        s2,
        reply ∷ rs,
        rw served all,
        sent2 ∙ ap (λ x. x ++ rs) sent ∙ append_assoc s.replies (reply ∷ []) rs,
        (λ i. (code i, body i) ∷ given i) ∙ sym e3,
        co2,
        later,
        e',
        kept2,
      )
  run-Happens _ calls now e s t expected (restarted events _ _ _ rest) known co kept =
      let (w, made, r) = construct-IsKept j laws h c s.world now e kept can in
      let (s2, rs, all, sent, given, co2, later, e2, kept2) =
        run-Happens events calls now e (record s { world = w }) t expected rest known
          (Coheres-Restarted j b h c s.world w now e t r kept co)
          (IsKept-Restarted j c s.world w now e r kept) in
      (s2, rs, rw made all, sent, given, co2, later, e2, kept2)
  run-Happens _ calls now e s t expected (passed events _ _ later _ rest) known co kept =
      run-Happens events calls later e
        (record s { world = record s.world { disk = record s.world.disk { now = later } } }) t
        expected rest known (Coheres-clock b h c s.world t later co)
        (IsKept-clock j h c s.world now later e kept)

  -- If the settings let a stored file be found again and the storage file be kept, a service that
  -- is started on a disk on which nothing has been stored yet goes through any sequence of
  -- requests, restarts and changes of the clock, where the requests make calls of a map and each
  -- upload can be recorded when it comes, in whatever order the table is written: every restart
  -- comes to its end, the requests are answered as the map says, as if there were no restarts, and
  -- a start on the disk that is left gives back the entries that the service has, perhaps in
  -- another order. The names are those of files, and the settings' places are different entries of
  -- the working directory.
  pub run-answers :
      (events : List Event) (calls : List Call) (d : Disk) (expected : List Answer)
      → IsBlank c d
      → Happens j base64_decode b h c events calls d.now []
      → answers calls [] ≡ some expected
      → (w : World) × (s' : Session) × (construct j h c d ≡ ok w)
        × (run j b base64_decode h c strerror junk ctime events (record { world = w; replies = [] })
            ≡ ok s')
        × (answers_of s'.replies ≡ expected)
        × (w' : World) × (construct j h c s'.world.disk ≡ ok w')
        × Restarted c s'.world w'
  run-answers events calls d expected blank happens known =
      let (s', rs, all, sent, given, co, later, e', kept) =
        run-Happens events calls d.now [] (record { world = first c d; replies = [] }) [] expected
          happens known (Coheres-first b h c d blank) (IsKept-first j c d blank) in
      let (w', again, r) = construct-IsKept j laws h c s'.world later e' kept can in
      (
        first c d,
        s',
        construct-missing j h c d blank.no_table,
        all,
        ap answers_of sent ∙ given,
        w',
        again,
        r,
      )
