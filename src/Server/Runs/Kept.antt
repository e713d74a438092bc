-- ===== src/Server/Runs/Kept.antt =====
-- src/server/DataManager.hpp and Service.hpp: when a service keeps what it should, and that the
-- clock and a download leave it so.
use mathlib.Core.List.{Permᴰ}
use asyn_log_system.Server.Store.Served.{
  AfterRead-nodes, AfterRead-manager, AfterRead-now, AfterRead,
}
use asyn_log_system.Server.Runs.Entries.{file_age}
use asyn_log_system.Server.Runs.{entry_age, IsKeepable}
use asyn_log_system.Server.Store.{IsUsable, stored_url, stored_path, Kind}
use asyn_log_system.Server.DataManager.Items.{IsPlain, All, IsKeyed}
use asyn_log_system.Server.Service.Effects.{IsNoDirectory}
use asyn_log_system.Prelude.{subst, List, refl, ◌≢◌, [], sym, none, ◌⊎◌, ap, inr, inl, ◌∙◌, ◌≡◌, ℕ}
use asyn_log_system.Server.DataManager.Entry.{StorageInfo}
use asyn_log_system.Prelude.Table.{values, find, Table}
use asyn_log_system.Prelude.Text.{Text}
use asyn_log_system.Server.Config.{Config}
use asyn_log_system.Server.DataManager.Reload.{Stored}
use asyn_log_system.Server.DataManager.{World}
use asyn_log_system.Json.{Json}
use asyn_log_system.Server.Disk.{Host, Disk}

-- The manager's table holds these entries, and the disk holds them too, each in an order of its own:
-- the storage file has been written, or nothing was ever stored. A file in the two directories is one with an entry.
pub record IsKept (j : Json) (c : Config) (w : World) (now : ℕ) (e : Table StorageInfo)
    : Type 0 where
  pub clock_at : w.disk.now ≡ now
  pub table : Permᴰ w.manager.table e
  pub keyed : IsKeyed e
  pub plain : All IsPlain (values e)
  pub kept :
      ((u : Table StorageInfo) × Permᴰ u e × Stored j w.disk c.storage_info (values u))
      ⊎ ((w.disk.nodes c.storage_info ≡ none) × (e ≡ []))
  pub aged :
      (k : Kind) (name : Text)
      → name ≢ []
      → file_age (w.disk.nodes (stored_path c k name)) ≡ entry_age (find (stored_url c k name) e)

Stored-nodes :
    (j : Json) (d d' : Disk) (p : Text) (e : List StorageInfo)
    → d'.nodes p ≡ d.nodes p
    → Stored j d p e
    → Stored j d' p e
unfolding Stored
Stored-nodes j d d' p e same (body, (f, at, content), short, parsed) =
    (body, (f, same ∙ at, content), short, parsed)

pub IsNoDirectory-kept :
    (j : Json) (c : Config) (w : World) (now : ℕ) (e : Table StorageInfo)
    → IsKept j c w now e
    → IsNoDirectory w.disk c.storage_info
unfolding Stored
IsNoDirectory-kept j c w now e kept is_dir = elim kept.kept [
  | inl (u, perm, (body, (f, at, content), short, parsed)) ↦ cc (at, is_dir)
  | inr (missing, nothing) ↦ cc (missing, is_dir)
]

module _ (j : Json) (h : Host) (c : Config) where
  -- The same entries, the same clock and the same nodes where the service keeps its files.
  IsKept-same :
      (w w' : World) (now later : ℕ) (e : Table StorageInfo)
      → w'.disk.now ≡ later
      → w'.manager ≡ w.manager
      → w'.disk.nodes c.storage_info ≡ w.disk.nodes c.storage_info
      → ((k : Kind) (name : Text)
          → w'.disk.nodes (stored_path c k name) ≡ w.disk.nodes (stored_path c k name))
      → IsKept j c w now e
      → IsKept j c w' later e
  IsKept-same w w' now later e time manager same files kept = record {
    clock_at = time;
    table = subst (λ m. Permᴰ m.table e) (sym manager) kept.table;
    keyed = kept.keyed;
    plain = kept.plain;
    kept = elim kept.kept [
      | inl (u, perm, stored) ↦
          inl (u, perm, Stored-nodes j w.disk w'.disk c.storage_info (values u) same stored)
      | inr (missing, nothing) ↦ inr (same ∙ missing, nothing)
    ];
    aged = λ k name ne. ap file_age (files k name) ∙ kept.aged k name ne;
  }

  pub IsKept-clock :
      (w : World) (now later : ℕ) (e : Table StorageInfo)
      → IsKept j c w now e
      → IsKept j c (record w { disk = record w.disk { now = later } }) later e
  IsKept-clock w now later e kept = IsKept-same w _ now later e refl refl refl (λ k name. refl) kept

  pub IsKept-AfterRead :
      (w w' : World) (now : ℕ) (e : Table StorageInfo)
      → AfterRead h c w w'
      → IsUsable c
      → IsKeepable h c
      → IsKept j c w now e
      → IsKept j c w' now e
  IsKept-AfterRead w w' now e read u can kept =
      IsKept-same w w' now now e (AfterRead-now h c w w' read ∙ kept.clock_at)
        (AfterRead-manager h c w w' read)
        (AfterRead-nodes h c w w' c.storage_info read can.no_unpacked)
        (λ k name. AfterRead-nodes h c w w' (stored_path c k name) read (u.unpacked_apart k name))
        kept
