-- ===== src/Server/DataManager/Reload.antt =====
-- src/server/DataManager.hpp: what `Storage` writes, `InitLoad` reads back after a restart.
use asyn_log_system.Prelude.{
  subst, map, ◌^◌, ◌≤◌, ◌<◌, ◌≡◌, refl, sym, ◌∙◌, true, List, [], ◌∷◌, ◌++◌, length, Option, none,
  some, ok, err, arith, size_mod,
}
use asyn_log_system.Prelude.Text.{Text}
use asyn_log_system.Prelude.Table.{find-nil, Table, find, assign, values}
use asyn_log_system.Server.Config.{Config}
use asyn_log_system.Json.{Json, JsonLaws, serialize_written, unserialize_parsed}
use asyn_log_system.Server.Disk.{Disk, Host, exists}
use asyn_log_system.Server.Disk.Laws.{Writable, Holds, set_content-Holds, get_content-Holds}
use asyn_log_system.Server.DataManager.RwLock.{json_error, unlocked}
use asyn_log_system.Server.DataManager.Entry.{StorageInfo, to_json, to_array, of_json}
use asyn_log_system.Server.DataManager.{
  DataManager, World, iterated, load_items, init_load, construct, insert,
}
use mathlib.Core.List.Permᴰ
use asyn_log_system.Server.DataManager.Order.{values-Permᴰ, All-Permᴰ, IsKeyed-Permᴰ}
use asyn_log_system.Server.DataManager.Access.{saved, put_entry_free, insert_free}
use asyn_log_system.Server.DataManager.Items.{
  IsPlain, All, IsKeyed, assign-IsKeyed, members-to_json, of_json-to_json, elements-to_array,
  reload, or_else, find-reload,
}

module _ (j : Json) (laws : JsonLaws j) (h : Host) where
  load_items-reload :
      (infos : List StorageInfo) (m : DataManager)
      → All IsPlain infos
      → m.lock ≡ unlocked
      → load_items j h (map (to_json j) infos) m
        ≡ ok (record m { lock = unlocked; table = reload infos m.table })
  unfolding load_items reload
  load_items-reload [] m p free = rw (← free)
  load_items-reload (info ∷ rest) m p free =
      rw (of_json-to_json j laws info p.0, put_entry_free info m free)
        (load_items-reload rest (record m { lock = unlocked; table = assign info.url info m.table })
          p.1 refl)

or_else-none : (o : Option StorageInfo) → or_else o none ≡ o
or_else-none none = refl
or_else-none (some a) = refl

-- The file holds these entries in this order.
unfoldable pub Stored : (j : Json) → Disk → Text → List StorageInfo → Type 0
Stored j d p infos =
    (body : Text) × Holds d p body
    × (length body < size_mod)
    × (j.parse body ≡ some (to_array j infos j.null))

pub exists-Holds : (d : Disk) (p s : Text) → Holds d p s → exists p d ≡ true
unfolding exists
exists-Holds d p s (f, at, e) = ground arith

module _ (j : Json) (laws : JsonLaws j) (h : Host) where
  pub saved-Stored :
      (m : DataManager) (d : Disk) (body : Text)
      → j.write (to_array j (iterated h m.table) j.null) ≡ some body
      → length body < size_mod
      → Writable h m.storage_file (length body) d
      → Stored j (saved j h m d) m.storage_file (iterated h m.table)
  unfolding Stored
  saved-Stored m d body written short room =
      rw (saved, serialize_written j _ [] body written)
        (
          body,
          (set_content-Holds h m.storage_file body d room).1,
          short,
          laws.parse-write _ body written,
        )

  -- The manager after a restart over such a file.
  pub construct_written :
      (c : Config) (d : Disk) (infos : List StorageInfo)
      → Stored j d c.storage_info infos
      → All IsPlain infos
      → h.can_read c.storage_info ≡ true
      → construct j h c d
        ≡ ok (record {
          manager = record {
            storage_file = c.storage_info;
            lock = unlocked;
            table = reload infos [];
          };
          disk = d;
        })
  unfolding Stored construct init_load
  construct_written c d infos (body, held, short, parsed) plain readable =
      let fresh : DataManager = record {
        storage_file = c.storage_info;
        lock = unlocked;
        table = [];
      } in
      let items : j.elements (to_array j infos j.null) ≡ map (to_json j) infos =
        elements-to_array j laws infos j.null ∙ rw laws.elements-null in
      rw (
        exists-Holds d c.storage_info body held,
        get_content-Holds h c.storage_info body d held short readable,
        unserialize_parsed j j.null _ body parsed,
        items,
        load_items-reload j laws h infos fresh plain refl,
      )

  -- It reads every entry back.
  pub construct-Stored :
      (c : Config) (d : Disk) (t : Table StorageInfo)
      → Stored j d c.storage_info (values t)
      → IsKeyed t
      → All IsPlain (values t)
      → h.can_read c.storage_info ≡ true
      → (w : World) × (construct j h c d ≡ ok w)
        × ((k : Text) → find k w.manager.table ≡ find k t)
        × (w.manager.lock ≡ unlocked)
        × (w.manager.storage_file ≡ c.storage_info)
        × (w.disk ≡ d)
  construct-Stored c d t stored keyed plain readable = (
    _,
    construct_written c d (values t) stored plain readable,
    (λ k. find-reload k t [] keyed ∙ rw (find-nil StorageInfo k) (or_else-none (find k t))),
    refl,
    refl,
    refl,
  )

-- After an Insert with the lock free, whose serialised table was written in full, a restart with
-- the same file, which can be read, gives a table with the same entry under every URL, if every
-- entry stood under its own URL, and in the new table numbers are below 2^31 and texts hold no 0
-- byte.
pub construct-insert :
    (j : Json) (laws : JsonLaws j) (h : Host) (c : Config) (info : StorageInfo) (w : World)
    (body : Text)
    → w.manager.lock ≡ unlocked
    → w.manager.storage_file ≡ c.storage_info
    → IsKeyed w.manager.table
    → All IsPlain (values (assign info.url info w.manager.table))
    → j.write (to_array j (iterated h (assign info.url info w.manager.table)) j.null) ≡ some body
    → length body < size_mod
    → Writable h c.storage_info (length body) w.disk
    → h.can_read c.storage_info ≡ true
    → (w' w'' : World) × (insert j h info w ≡ ok (true, w'))
      × (construct j h c w'.disk ≡ ok w'')
      × ((k : Text) → find k w''.manager.table ≡ find k w'.manager.table)
construct-insert j laws h c info w body free same keyed plain written short room readable =
    let t : Table StorageInfo = assign info.url info w.manager.table in
    let m : DataManager = record w.manager { lock = unlocked; table = t } in
    let known = assign-IsKeyed info w.manager.table keyed in
    let (keyed_too, finds) = IsKeyed-Permᴰ t (h.order t) (Permᴰ.symm (h.order-Permᴰ t)) known in
    let plain_too =
      All-Permᴰ IsPlain (values t) (iterated h t)
        (Permᴰ.symm (values-Permᴰ (h.order t) t (h.order-Permᴰ t))) plain in
    let stored =
      saved-Stored j laws h m w.disk body written short
        (subst (λ p. Writable h p (length body) w.disk) (sym same) room) in
    let (w'', made, equal, lock, same_file, same_disk) =
      construct-Stored j laws h c (saved j h m w.disk) (h.order t)
        (subst (λ p. Stored j (saved j h m w.disk) p (iterated h t)) same stored) keyed_too
        plain_too readable in
    (_, w'', insert_free j h info w free, made, λ k. equal k ∙ sym (finds k))

module _ (j : Json) (laws : JsonLaws j) (h : Host) where
  -- `asInt` refuses the size of such an entry.
  of_json-too_big :
      (info : StorageInfo)
      → 2 ^ 31 ≤ info.fsize
      → info.fsize < 2 ^ 63
      → of_json j (to_json j info) ≡ err json_error
  unfolding of_json
  of_json-too_big info low high =
      let (mtime, atime, fsize, url, path) = members-to_json j laws info in
      rw (fsize, laws.as_int-too_big info.fsize low high)

  load_items-too_big :
      (before after : List StorageInfo) (info : StorageInfo) (m : DataManager)
      → All IsPlain before
      → 2 ^ 31 ≤ info.fsize
      → info.fsize < 2 ^ 63
      → m.lock ≡ unlocked
      → load_items j h (map (to_json j) (before ++ info ∷ after)) m ≡ err json_error
  unfolding load_items
  load_items-too_big [] after info m plain low high free = rw (of_json-too_big info low high)
  load_items-too_big (x ∷ before) after info m plain low high free =
      rw (of_json-to_json j laws x plain.0, put_entry_free x m free)
        (load_items-too_big before after info
          (record m { lock = unlocked; table = assign x.url x m.table }) plain.1 low high refl)

-- If the storage file, which can be read, holds an entry whose size is at least 2^31 and below
-- 2^63 behind entries that load, the next start throws an exception of the JSON library.
pub construct_too_big :
    (j : Json) (laws : JsonLaws j) (h : Host) (c : Config) (d : Disk)
    (before after : List StorageInfo) (info : StorageInfo)
    → Stored j d c.storage_info (before ++ info ∷ after)
    → All IsPlain before
    → 2 ^ 31 ≤ info.fsize
    → info.fsize < 2 ^ 63
    → h.can_read c.storage_info ≡ true
    → construct j h c d ≡ err json_error
unfolding Stored construct init_load
construct_too_big j laws h c d before after info (body, held, short, parsed) plain low high
      readable =
    let items : j.elements (to_array j (before ++ info ∷ after) j.null)
        ≡ map (to_json j) (before ++ info ∷ after) =
      elements-to_array j laws (before ++ info ∷ after) j.null ∙ rw laws.elements-null in
    rw (
      exists-Holds d c.storage_info body held,
      get_content-Holds h c.storage_info body d held short readable,
      unserialize_parsed j j.null _ body parsed,
      items,
      load_items-too_big j laws h before after info
          (record { storage_file = c.storage_info; lock = unlocked; table = [] }) plain low high
          refl,
    )
