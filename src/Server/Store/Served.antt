-- ===== src/Server/Store/Served.antt =====
-- src/server/Service.hpp: a download of a packed file leaves the map as it was.
use asyn_log_system.Server.Disk.Laws.{
  create_directory-now, set_content-now, create_directory-SameBut, Holds,
}
use asyn_log_system.Prelude.Table.{Table}
use asyn_log_system.Prelude.{refl, ◌≡◌, append-nil, sym, ◌∙◌, [], ◌++◌, arith, ◌≢◌}
use asyn_log_system.Server.DataManager.{World}
use asyn_log_system.Server.Config.{Config}
use asyn_log_system.Prelude.Text.{text_eq-false, Text}
use asyn_log_system.Server.Disk.{create_directory, set_content, Disk, remove, Bundle, Host}
use asyn_log_system.Server.Store.Coheres.{Coheres, append-ne}
use asyn_log_system.Server.Store.{stored_path, stored_bytes, IsUsable}
use asyn_log_system.Server.Service.Effects.{
  IsNoDirectory, set_content-IsNoDirectory, create_directory-IsNoDirectory, Holds-SameBut,
  set_content-SameBut, create_directory-Holds,
}

remove-IsNoDirectory : (p q : Text) (d : Disk) → IsNoDirectory d q → IsNoDirectory (remove p d) q
unfolding remove
remove-IsNoDirectory p q d free e = ground arith

remove-Holds : (p q s : Text) (d : Disk) → q ≢ p → Holds d q s → Holds (remove p d) q s
unfolding remove
remove-Holds p q s d ne (f, at, e) = (f, rw (text_eq-false p q (λ x. ne (sym x))) at, e)

module _ (h : Host) (c : Config) (m body : Text) (d : Disk) where
  -- The disk after a file was unpacked, sent and removed.
  abbrev pub served : Disk
  served =
      remove (c.uncompress_dir ++ m)
        (set_content h (c.uncompress_dir ++ m) body (create_directory c.uncompress_dir d)).1

  served-IsNoDirectory :
      (q : Text) → q ≢ c.uncompress_dir → IsNoDirectory d q → IsNoDirectory served q
  served-IsNoDirectory q ne free =
      remove-IsNoDirectory (c.uncompress_dir ++ m) q
        (set_content h (c.uncompress_dir ++ m) body (create_directory c.uncompress_dir d)).1
        (set_content-IsNoDirectory h (c.uncompress_dir ++ m) body
          (create_directory c.uncompress_dir d) q
          (create_directory-IsNoDirectory c.uncompress_dir d q ne free))

  served-SameBut :
      (q : Text) → q ≢ c.uncompress_dir → q ≢ c.uncompress_dir ++ m → served.nodes q ≡ d.nodes q
  unfolding remove
  served-SameBut q ne apart = rw (text_eq-false (c.uncompress_dir ++ m) q (λ e. apart (sym e))) (
      set_content-SameBut h (c.uncompress_dir ++ m) body (create_directory c.uncompress_dir d) q
        apart
      ∙ create_directory-SameBut c.uncompress_dir d q ne)

  served-now : served.now ≡ d.now
  unfolding remove
  served-now =
      set_content-now h (c.uncompress_dir ++ m) body (create_directory c.uncompress_dir d)
      ∙ create_directory-now c.uncompress_dir d

  served-Holds : (q s : Text) → q ≢ c.uncompress_dir ++ m → Holds d q s → Holds served q s
  served-Holds q s ne held =
      let target : Text = c.uncompress_dir ++ m in
      let made : Disk = create_directory c.uncompress_dir d in
      remove-Holds target q s (set_content h target body made).1 ne (
        Holds-SameBut made (set_content h target body made).1 target q s
          (set_content-SameBut h target body made) ne
          (create_directory-Holds d c.uncompress_dir q s held))

Coheres-served :
    (b : Bundle) (h : Host) (c : Config) (m body : Text) (w : World) (t : Table Text)
    → IsUsable c
    → Coheres b h c w t
    → Coheres b h c (record w { disk = served h c m body w.disk }) t
Coheres-served b h c m body w t u co = record {
  free = co.free;
  file_at = co.file_at;
  files = λ k name ne.
      served-IsNoDirectory h c m body w.disk (stored_path c k name)
        (λ e. u.unpacked_apart k name [] (e ∙ sym (append-nil c.uncompress_dir)))
        (co.files k name ne);
  unpacked = λ n ne.
      served-IsNoDirectory h c m body w.disk (c.uncompress_dir ++ n)
        (append-ne c.uncompress_dir n ne) (co.unpacked n ne);
  stored = λ k name content e.
      let st = co.stored k name content e in
      record {
        can = st.can;
        entry = st.entry;
        found = st.found;
        own_path = st.own_path;
        held =
            served-Holds h c m body w.disk (stored_path c k name) (stored_bytes b c k content)
              (u.unpacked_apart k name m) st.held;
      };
}

-- The service after a request that stores nothing: as it was, or with one file unpacked and removed
-- again.
pub data AfterRead (h : Host) (c : Config) (w : World) : World → Type 0 where
  as_before : AfterRead h c w w
  after_serving : (m body : Text) → AfterRead h c w (record w { disk = served h c m body w.disk })

-- Such a request changes no node but the directory of unpacked files and what stands in it.
pub AfterRead-nodes :
    (h : Host) (c : Config) (w w' : World) (q : Text)
    → AfterRead h c w w'
    → ((m : Text) → q ≢ c.uncompress_dir ++ m)
    → w'.disk.nodes q ≡ w.disk.nodes q
AfterRead-nodes h c w _ q as_before apart = refl
AfterRead-nodes h c w _ q (after_serving m body) apart =
    served-SameBut h c m body w.disk q (λ e. apart [] (e ∙ sym (append-nil c.uncompress_dir)))
      (apart m)

pub AfterRead-now :
    (h : Host) (c : Config) (w w' : World) → AfterRead h c w w' → w'.disk.now ≡ w.disk.now
AfterRead-now h c w _ as_before = refl
AfterRead-now h c w _ (after_serving m body) = served-now h c m body w.disk

pub AfterRead-manager :
    (h : Host) (c : Config) (w w' : World) → AfterRead h c w w' → w'.manager ≡ w.manager
AfterRead-manager h c w _ as_before = refl
AfterRead-manager h c w _ (after_serving m body) = refl

pub Coheres-AfterRead :
    (b : Bundle) (h : Host) (c : Config) (w w' : World) (t : Table Text)
    → AfterRead h c w w'
    → IsUsable c
    → Coheres b h c w t
    → Coheres b h c w' t
Coheres-AfterRead b h c w _ t as_before u co = co
Coheres-AfterRead b h c w _ t (after_serving m body) u co = Coheres-served b h c m body w t u co
