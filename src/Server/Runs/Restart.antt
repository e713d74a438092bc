-- ===== src/Server/Runs/Restart.antt =====
-- src/server/DataManager.hpp: what a restart makes of a service that keeps its entries.
use mathlib.Core.List.Permᴰ
use mathlib.Core.List.{Permᴰ}
use asyn_log_system.Server.DataManager.Order.{values-Permᴰ, All-Permᴰ, IsKeyed-Permᴰ}
use asyn_log_system.Server.Store.Coheres.{Coheres}
use asyn_log_system.Server.Disk.Laws.{Holds}
use asyn_log_system.Server.Disk.{Bundle}
use asyn_log_system.Server.Store.{stored_bytes}
use asyn_log_system.Server.Runs.Entries.{reload-values, file_age}
use asyn_log_system.Server.DataManager.RwLock.{unlocked}
use asyn_log_system.Server.Runs.{IsKeepable}
use asyn_log_system.Server.Store.{stored_url, stored_path}
use asyn_log_system.Server.DataManager.Items.{IsPlain}
use asyn_log_system.Server.Service.Effects.{IsNoDirectory}
use asyn_log_system.Prelude.{
  ◌++◌, subst, refl, false, [], sym, none, ◌⊎◌, ap, ok, inr, inl, ◌∙◌, ◌≡◌, ℕ,
}
use asyn_log_system.Server.DataManager.Entry.{StorageInfo}
use asyn_log_system.Prelude.Table.{values, Table}
use asyn_log_system.Prelude.Text.{Text}
use asyn_log_system.Server.Config.{Config}
use asyn_log_system.Server.DataManager.Reload.{construct_written, Stored}
use asyn_log_system.Server.DataManager.{World, init_load, construct}
use asyn_log_system.Json.{JsonLaws, Json}
use asyn_log_system.Server.Disk.{Host, exists, Disk}
use asyn_log_system.Server.Runs.Kept.{IsKept}

not-exists : (p : Text) (d : Disk) → d.nodes p ≡ none → exists p d ≡ false
unfolding exists
not-exists p d e = rw (exists, e)

-- A start without a storage file.
pub construct-missing :
    (j : Json) (h : Host) (c : Config) (d : Disk)
    → d.nodes c.storage_info ≡ none
    → construct j h c d
      ≡ ok (record {
        manager = record { storage_file = c.storage_info; lock = unlocked; table = [] };
        disk = d;
      })
unfolding construct init_load
construct-missing j h c d e = rw (not-exists c.storage_info d e)

-- The manager after a restart: the same entries, perhaps in another order.
pub record Restarted (c : Config) (w w' : World) : Type 0 where
  pub free : w'.manager.lock ≡ unlocked
  pub file_at : w'.manager.storage_file ≡ c.storage_info
  pub disk : w'.disk ≡ w.disk
  pub table : Permᴰ w'.manager.table w.manager.table

pub construct-IsKept :
    (j : Json) (laws : JsonLaws j) (h : Host) (c : Config) (w : World) (now : ℕ)
    (e : Table StorageInfo)
    → IsKept j c w now e
    → IsKeepable h c
    → (w' : World) × (construct j h c w.disk ≡ ok w') × Restarted c w w'
construct-IsKept j laws h c w now e kept can = elim kept.kept [
  | inl (u, perm, stored) ↦ (
    _,
    construct_written j laws h c w.disk (values u) stored
        (All-Permᴰ IsPlain (values e) (values u) (Permᴰ.symm (values-Permᴰ u e perm)) kept.plain)
        can.readable,
    record {
      free = refl;
      file_at = refl;
      disk = refl;
      table =
          subst (λ t. Permᴰ t w.manager.table)
            (sym (reload-values u (IsKeyed-Permᴰ e u (Permᴰ.symm perm) kept.keyed).0))
            (Permᴰ.trans perm (Permᴰ.symm kept.table));
    },
  )
  | inr (missing, nothing) ↦ (
    _,
    construct-missing j h c w.disk missing,
    record {
      free = refl;
      file_at = refl;
      disk = refl;
      table = subst (λ t. Permᴰ t w.manager.table) nothing (Permᴰ.symm kept.table);
    },
  )
]

-- A restarted service keeps what it kept.
pub IsKept-Restarted :
    (j : Json) (c : Config) (w w' : World) (now : ℕ) (e : Table StorageInfo)
    → Restarted c w w'
    → IsKept j c w now e
    → IsKept j c w' now e
IsKept-Restarted j c w w' now e r kept = record {
  clock_at = ap (λ d. d.now) r.disk ∙ kept.clock_at;
  table = Permᴰ.trans r.table kept.table;
  keyed = kept.keyed;
  plain = kept.plain;
  kept =
      subst
        (λ d.
          ((u : Table StorageInfo) × Permᴰ u e × Stored j d c.storage_info (values u))
          ⊎ ((d.nodes c.storage_info ≡ none) × (e ≡ [])))
        (sym r.disk) kept.kept;
  aged =
      λ k name ne. ap (λ d. file_age (d.nodes (stored_path c k name))) r.disk ∙ kept.aged k name ne;
}

-- It still stands for the same map.
pub Coheres-Restarted :
    (j : Json) (b : Bundle) (h : Host) (c : Config) (w w' : World) (now : ℕ) (e : Table StorageInfo)
    (t : Table Text)
    → Restarted c w w'
    → IsKept j c w now e
    → Coheres b h c w t
    → Coheres b h c w' t
Coheres-Restarted j b h c w w' now e t r kept co =
    let keyed = (IsKeyed-Permᴰ e w.manager.table (Permᴰ.symm kept.table) kept.keyed).0 in
    let same = (IsKeyed-Permᴰ w.manager.table w'.manager.table (Permᴰ.symm r.table) keyed).1 in
    record {
      free = r.free;
      file_at = r.file_at;
      files = λ k name ne.
          subst (λ d. IsNoDirectory d (stored_path c k name)) (sym r.disk) (co.files k name ne);
      unpacked = λ m ne.
          subst (λ d. IsNoDirectory d (c.uncompress_dir ++ m)) (sym r.disk) (co.unpacked m ne);
      stored = λ k name content at.
          let st = co.stored k name content at in
          record {
            can = st.can;
            entry = st.entry;
            found = sym (same (stored_url c k name)) ∙ st.found;
            own_path = st.own_path;
            held =
                subst (λ d. Holds d (stored_path c k name) (stored_bytes b c k content))
                  (sym r.disk) st.held;
          };
    }
