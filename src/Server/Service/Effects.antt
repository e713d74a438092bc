-- ===== src/Server/Service/Effects.antt =====
-- src/server/Service.hpp: the parts of `Upload` and `Download`, on a service whose lock is free.
use asyn_log_system.Prelude.{
  ℕ, ◌≡◌, ◌≢◌, ◌≤◌, refl, sym, ◌∙◌, true, [], ◌∷◌, ◌++◌, drop, length, Option, some, ok, arith,
  le→not-ltb, if◌then◌else◌,
}
use asyn_log_system.Prelude.Text.{Text, codes, text_eq, text_eq_refl, text_eq_iff, text_eq-false}
use asyn_log_system.Prelude.Table.{find, assign, find-assign}
use asyn_log_system.Server.Config.{Config}
use asyn_log_system.Json.{Json, serialize}
use asyn_log_system.Server.Disk.{
  file_size, last_access_time, last_modify_time, Disk, directory, Host, Bundle, exists, set_content,
  create_directory,
}
use asyn_log_system.Server.Disk.Laws.{Holds, SameBut}
use asyn_log_system.Server.DataManager.RwLock.{unlocked}
use asyn_log_system.Server.DataManager.Entry.{StorageInfo, to_array, blank, new_storage_info}
use asyn_log_system.Server.DataManager.{iterated, DataManager}
use asyn_log_system.Server.DataManager.Access.{saved, insert_free}
use asyn_log_system.Server.DataManager.Reload.{exists-Holds}
use asyn_log_system.Server.Service.{Reply, Session, send, finish_upload}

-- `SetContent` changes no other path, whether it succeeds or not.
pub set_content-SameBut : (h : Host) (p s : Text) (d : Disk) → SameBut p d (set_content h p s d).1
unfolding set_content
set_content-SameBut h p s d q ne = ground (arith, text_eq-false p q (λ e. ne (sym e)))

pub saved-SameBut :
    (j : Json) (h : Host) (m : DataManager) (d : Disk) → SameBut m.storage_file d (saved j h m d)
saved-SameBut j h m d =
    set_content-SameBut h m.storage_file (serialize j (to_array j (iterated h m.table) j.null) []).1
      d

pub Holds-SameBut :
    (d d' : Disk) (p q s : Text) → SameBut p d d' → q ≢ p → Holds d q s → Holds d' q s
Holds-SameBut d d' p q s same ne (f, at, e) = (f, same q ne ∙ at, e)

abbrev pub IsNoDirectory : Disk → Text → Type 0
IsNoDirectory d q = d.nodes q ≢ some directory

-- Writing makes no directory, and a new directory is one at its own path only.
pub set_content-IsNoDirectory :
    (h : Host) (p s : Text) (d : Disk) (q : Text)
    → IsNoDirectory d q
    → IsNoDirectory (set_content h p s d).1 q
unfolding set_content
set_content-IsNoDirectory h p s d q free e = ground arith

pub create_directory-IsNoDirectory :
    (dir : Text) (d : Disk) (q : Text)
    → q ≢ dir
    → IsNoDirectory d q
    → IsNoDirectory (create_directory dir d) q
unfolding create_directory exists
create_directory-IsNoDirectory dir d q ne free e = ground (arith, text_eq_iff dir q)

-- A new directory takes the place of no file.
pub create_directory-Holds :
    (d : Disk) (dir p s : Text) → Holds d p s → Holds (create_directory dir d) p s
unfolding create_directory exists
create_directory-Holds d dir p s (f, at, e) = (f, ground (arith, text_eq_iff dir p), e)

-- The entry that `Upload` makes for a stored file.
abbrev pub entry_of : Config → Host → Text → Disk → StorageInfo
entry_of c h path d = record {
  mtime = last_modify_time path d;
  atime = last_access_time path d;
  fsize = file_size h path d;
  storage_path = path;
  url = c.download_prefix ++ drop 2 path;
}

pub new_storage_info-Holds :
    (c : Config) (h : Host) (path s : Text) (d : Disk) (info : StorageInfo)
    → Holds d path s
    → 2 ≤ length path
    → new_storage_info c h path d info ≡ ok (true, entry_of c h path d)
unfolding new_storage_info
new_storage_info-Holds c h path s d info held long =
    rw (exists-Holds d path s held, le→not-ltb 2 (length path) long)

-- One more reply at the end, of this code and with this body.
abbrev pub Replied : ℕ → Text → Session → Session → Type 0
Replied code body s s' =
    (r : Reply) × (s'.replies ≡ s.replies ++ r ∷ []) × (r.code ≡ code) × (r.body ≡ body)

-- The service after an upload, with `d` the disk once the file was there: the file is on disk
-- under `path`, its entry is in the table, no directory has come to be, and all other files and
-- entries are as they were. The table has been written out.
pub record Uploaded (j : Json) (h : Host) (c : Config) (path content : Text) (d : Disk)
    (s s' : Session) : Type 0 where
  pub free : s'.world.manager.lock ≡ unlocked
  pub held : Holds s'.world.disk path content
  pub replied : Replied 200 [] s s'
  pub files : (q : Text) → IsNoDirectory d q → IsNoDirectory s'.world.disk q
  pub entry : StorageInfo
  pub found : find (c.download_prefix ++ drop 2 path) s'.world.manager.table ≡ some entry
  pub own_path : entry.storage_path ≡ path
  pub kept : (q t : Text) → q ≢ s.world.manager.storage_file → Holds d q t → Holds s'.world.disk q t
  pub others :
      (k : Text)
      → find k s'.world.manager.table ≡ (
          if text_eq (c.download_prefix ++ drop 2 path) k
          then some entry
          else find k s.world.manager.table)
  pub same_file : s'.world.manager.storage_file ≡ s.world.manager.storage_file
  pub of_file : entry ≡ entry_of c h path d
  pub tables :
      s'.world.manager.table ≡ assign (c.download_prefix ++ drop 2 path) entry s.world.manager.table
  pub written : s'.world.disk ≡ saved j h s'.world.manager d

module _ (j : Json) (b : Bundle) (base64_decode : Text → Option Text) (h : Host) (c : Config)
    (strerror : Text) (junk : ℕ) where
  pub finish_upload-Uploaded :
      (path content : Text) (s : Session)
      → s.world.manager.lock ≡ unlocked
      → Holds s.world.disk path content
      → 2 ≤ length path
      → path ≢ s.world.manager.storage_file
      → (s' : Session) × (finish_upload j b base64_decode h c strerror junk path s ≡ ok s')
        × Uploaded j h c path content s.world.disk s s'
  unfolding finish_upload send
  finish_upload-Uploaded path content s free held long apart =
      let info : StorageInfo = entry_of c h path s.world.disk in
      let m : DataManager = record s.world.manager {
        lock = unlocked;
        table = assign info.url info s.world.manager.table;
      } in
      (
        send 200 (some (codes "Success"))
            (record s { world = record { manager = m; disk = saved j h m s.world.disk } }),
        rw (
          new_storage_info-Holds c h path content s.world.disk (blank junk) held long,
          insert_free j h info s.world free,
        ),
        record {
          free = refl;
          held =
              Holds-SameBut s.world.disk (saved j h m s.world.disk) m.storage_file path content
                (saved-SameBut j h m s.world.disk) apart held;
          replied = (_, refl, refl, refl);
          files = λ q.
              set_content-IsNoDirectory h m.storage_file
                (serialize j (to_array j (iterated h m.table) j.null) []).1 s.world.disk q;
          entry = info;
          found =
              rw (find-assign info.url info.url info s.world.manager.table, text_eq_refl info.url);
          own_path = refl;
          kept = λ q t.
              Holds-SameBut s.world.disk (saved j h m s.world.disk) m.storage_file q t
                (saved-SameBut j h m s.world.disk);
          others = λ k. find-assign info.url k info s.world.manager.table;
          same_file = refl;
          of_file = refl;
          tables = refl;
          written = refl;
        },
      )
