-- ===== src/Server/Runs/Entries.antt =====
-- src/server/DataManager.hpp and Util.hpp: the entry that an upload leaves, from what was recorded
-- before, and the table that a restart makes from a written one.
use asyn_log_system.Server.Service.Effects.{entry_of}
use asyn_log_system.Server.Config.{Config}
use asyn_log_system.Server.Disk.Laws.{not-is_directory, Writable}
use asyn_log_system.Server.DataManager.Entry.{StorageInfo}
use asyn_log_system.Prelude.Text.{ne_of_text_eq, text_eq, text_eq_refl, text_eq-false, Text}
use asyn_log_system.Prelude.Table.{assign, values, Table, find}
use asyn_log_system.Prelude.{
  ap, inr, inl, append_assoc, take_of_le, drop, ◌∙◌, append-nil, refl, Bool-cases, length, sym, ◌∷◌,
  none, some, ◌++◌, ℕ, ◌≡◌, [], Option,
}
use asyn_log_system.Server.DataManager.Items.{IsKeyed, reload}
use asyn_log_system.Server.Disk.{
  update, directory, file, file_size, last_access_time, Disk, Node, last_modify_time, Host,
  set_content, access_time,
}
use asyn_log_system.Server.Runs.{from_age}

unfoldable pub file_age : Option Node → Option ℕ
file_age none = none
file_age (some directory) = none
file_age (some (file f)) = some f.atime

access_time-from_age : (n : Option Node) (now : ℕ) → access_time n now ≡ from_age (file_age n) now
unfolding access_time from_age file_age
access_time-from_age none now = refl
access_time-from_age (some directory) now = refl
access_time-from_age (some (file f)) now = refl

-- The disk after a write that succeeds.
abbrev with_file : Text → Text → Disk → Disk
with_file p s d = record d {
  nodes =
      update p
        (some (
          file
            (record { content = s; mtime = d.now; atime = from_age (file_age (d.nodes p)) d.now })))
        d.nodes;
}

set_content-with_file :
    (h : Host) (p s : Text) (d : Disk)
    → Writable h p (length s) d
    → (set_content h p s d).1 ≡ with_file p s d
unfolding set_content
set_content-with_file h p s d w =
    rw
      (
        w.opens,
        not-is_directory (d.nodes p) w.free,
        take_of_le (h.room p) s w.fits,
        access_time-from_age (d.nodes p) d.now,
      )
      refl

-- What the entry of a file that was just written says.
pub entry_of-set_content :
    (c : Config) (h : Host) (p s : Text) (d : Disk)
    → Writable h p (length s) d
    → entry_of c h p (set_content h p s d).1 ≡ record {
      mtime = d.now;
      atime = from_age (file_age (d.nodes p)) d.now;
      fsize = length s;
      storage_path = p;
      url = c.download_prefix ++ drop 2 p;
    }
unfolding last_modify_time last_access_time file_size
entry_of-set_content c h p s d w =
    ap (entry_of c h p) (set_content-with_file h p s d w)
    ∙ rw (last_modify_time, last_access_time, file_size, text_eq_refl p)

pub file_age-set_content :
    (h : Host) (p s : Text) (d : Disk)
    → Writable h p (length s) d
    → file_age ((set_content h p s d).1.nodes p) ≡ some (from_age (file_age (d.nodes p)) d.now)
unfolding file_age
file_age-set_content h p s d w =
    ap (λ x. file_age (x.nodes p)) (set_content-with_file h p s d w) ∙ rw (text_eq_refl p)

-- A new key goes to the end.
assign_new :
    (k : Text) (v : StorageInfo) (t : Table StorageInfo)
    → find k t ≡ none
    → assign k v t ≡ t ++ (k, v) ∷ []
unfolding find assign
assign_new k v [] e = refl
assign_new k v ((i, w) ∷ t) e = elim (Bool-cases (text_eq i k)) [
  | inl same ↦ cc (rw same at e)
  | inr other ↦ rw other (ap (◌∷◌ (i, w)) (assign_new k v t (rw other at e)))
]

find-append : (k : Text) (t u : Table StorageInfo) → find k t ≡ none → find k (t ++ u) ≡ find k u
unfolding find
find-append k [] u e = refl
find-append k ((i, w) ∷ t) u e = elim (Bool-cases (text_eq i k)) [
  | inl same ↦ cc (rw same at e)
  | inr other ↦ rw other (find-append k t u (rw other at e))
]

-- None of the keys of the second table is in the first.
abbrev AreNew : Table StorageInfo → Table StorageInfo → Type 0
AreNew [] acc = Unit
AreNew ((k, v) ∷ t) acc = (find k acc ≡ none) × AreNew t acc

AreNew-append :
    (t acc : Table StorageInfo) (k : Text) (v : StorageInfo)
    → AreNew t acc
    → find k t ≡ none
    → AreNew t (acc ++ (k, v) ∷ [])
unfolding find
AreNew-append [] acc k v n e = tt
AreNew-append ((i, w) ∷ t) acc k v (new, rest) e = elim (Bool-cases (text_eq i k)) [
  | inl same ↦ cc (rw same at e)
  | inr other ↦ (
    find-append i acc ((k, v) ∷ []) new
        ∙ rw (text_eq-false k i (λ x. ne_of_text_eq i k other (sym x))),
    AreNew-append t acc k v rest (rw other at e),
  )
]

reload-append :
    (t acc : Table StorageInfo) → IsKeyed t → AreNew t acc → reload (values t) acc ≡ acc ++ t
unfolding reload values
reload-append [] acc keyed new = sym (append-nil acc)
reload-append ((k, v) ∷ t) acc (own, once, rest) (fresh, new) =
    ap (λ i. reload (values t) (assign i v acc)) own
    ∙ ap (reload (values t)) (assign_new k v acc fresh)
    ∙ reload-append t (acc ++ (k, v) ∷ []) rest (AreNew-append t acc k v new once)
    ∙ append_assoc acc ((k, v) ∷ []) t

AreNew-nil : (t : Table StorageInfo) → AreNew t []
unfolding find
AreNew-nil [] = tt
AreNew-nil ((k, v) ∷ t) = (refl, AreNew-nil t)

-- Entries taken in order into an empty table give the table that they come from.
pub reload-values : (t : Table StorageInfo) → IsKeyed t → reload (values t) [] ≡ t
reload-values t keyed = reload-append t [] keyed (AreNew-nil t)
