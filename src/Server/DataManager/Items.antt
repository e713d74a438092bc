-- ===== src/Server/DataManager/Items.antt =====
-- src/server/DataManager.hpp: entries through JSON and back, and the table that they make.
use Prim.Native.String.{String}
use asyn_log_system.Prelude.{
  append-nil, map, ◌^◌, ◌<◌, ◌≡◌, refl, sym, inl, inr, ap, ◌∙◌, Bool, true, false, List, [], ◌∷◌,
  ◌++◌, Option, none, some, if◌then◌else◌, ok, Bool-cases, append_assoc,
}
use asyn_log_system.Prelude.Text.{
  ne_of_text_eq, text_eq-false, Text, codes, text_eq, text_eq_iff, c_str,
}
use asyn_log_system.Prelude.Table.{Table, find, assign, values, find-assign}
use asyn_log_system.Json.{Json, JsonLaws}
use asyn_log_system.Server.DataManager.Entry.{StorageInfo, to_json, to_array, of_json}

-- What comes through JSON and back unchanged: numbers that an `int` holds, texts without a 0 byte.
pub record IsPlain (info : StorageInfo) : Type 0 where
  pub mtime_small : info.mtime < 2 ^ 31
  pub atime_small : info.atime < 2 ^ 31
  pub fsize_small : info.fsize < 2 ^ 31
  pub path_plain : c_str info.storage_path ≡ info.storage_path
  pub url_plain : c_str info.url ≡ info.url

abbrev pub All {ℓ κ} : {A : Type ℓ} → (A → Type κ) → List A → Type κ
All P [] = Unit
All P (x ∷ xs) = P x × All P xs

-- Each entry stands under its own URL, and no URL twice.
abbrev pub IsKeyed : Table StorageInfo → Type 0
IsKeyed [] = Unit
IsKeyed ((k, v) ∷ t) = (v.url ≡ k) × (find k t ≡ none) × IsKeyed t

pub assign-IsKeyed :
    (info : StorageInfo) (t : Table StorageInfo) → IsKeyed t → IsKeyed (assign info.url info t)
unfolding assign find
assign-IsKeyed info [] h = (refl, refl, tt)
assign-IsKeyed info ((k, v) ∷ t) (own, once, rest) = elim (Bool-cases (text_eq k info.url)) [
  | inl same ↦ rw same (sym ((text_eq_iff k info.url).0 same), once, rest)
  | inr other ↦ rw other (
    own,
    rw
        (
          find-assign info.url k info t,
          text_eq-false info.url k (λ e. ne_of_text_eq k info.url other (sym e)),
        )
        once,
    assign-IsKeyed info t rest,
  )
]

-- One entry through JSON and back.
module _ (j : Json) (laws : JsonLaws j) where
  -- The members of an item, through those set after them.
  pub members-to_json :
      (info : StorageInfo)
      → let v = to_json j info in
        (j.member v (codes "mtime_") ≡ j.int64 info.mtime)
        × (j.member v (codes "atime_") ≡ j.int64 info.atime)
        × (j.member v (codes "fsize_") ≡ j.int64 info.fsize)
        × (j.member v (codes "url_") ≡ j.string (c_str info.url))
        × (j.member v (codes "storage_path_") ≡ j.string (c_str info.storage_path))
  unfolding to_json text_eq
  members-to_json info = (
    past "storage_path_" "mtime_" refl
        ∙ past "url_" "mtime_" refl
        ∙ past "fsize_" "mtime_" refl
        ∙ past "atime_" "mtime_" refl
        ∙ laws.member-set_self _ _ _,
    past "storage_path_" "atime_" refl
        ∙ past "url_" "atime_" refl
        ∙ past "fsize_" "atime_" refl
        ∙ laws.member-set_self _ _ _,
    past "storage_path_" "fsize_" refl ∙ past "url_" "fsize_" refl ∙ laws.member-set_self _ _ _,
    past "storage_path_" "url_" refl ∙ laws.member-set_self _ _ _,
    laws.member-set_self _ _ _,
  )
    where
      past :
          (k l : String) {v x : j.Value}
          → text_eq (codes k) (codes l) ≡ false
          → j.member (j.set v (codes k) x) (codes l) ≡ j.member v (codes l)
      past k l ne = laws.member-set_ne _ _ (codes k) (codes l) (ne_of_text_eq _ _ ne)

  pub of_json-to_json : (info : StorageInfo) → IsPlain info → of_json j (to_json j info) ≡ ok info
  unfolding of_json
  of_json-to_json info p =
      let (mtime, atime, fsize, url, path) = members-to_json info in
      rw (
        fsize,
        laws.as_int-int64 info.fsize p.fsize_small,
        atime,
        laws.as_int-int64 info.atime p.atime_small,
        mtime,
        laws.as_int-int64 info.mtime p.mtime_small,
        path,
        laws.as_string-string (c_str info.storage_path),
        url,
        laws.as_string-string (c_str info.url),
        p.path_plain,
        p.url_plain,
      )

  pub elements-to_array :
      (infos : List StorageInfo) (root : j.Value)
      → j.elements (to_array j infos root) ≡ j.elements root ++ map (to_json j) infos
  unfolding to_array
  elements-to_array [] root = sym (append-nil _)
  elements-to_array (info ∷ rest) root =
      elements-to_array rest (j.append root (to_json j info))
      ∙ rw (laws.elements-append, append_assoc)

-- The table that the entries make, taken in order into a given one.
unfoldable pub reload : List StorageInfo → Table StorageInfo → Table StorageInfo
reload [] t = t
reload (info ∷ rest) t = reload rest (assign info.url info t)

abbrev pub or_else : Option StorageInfo → Option StorageInfo → Option StorageInfo
or_else none o = o
or_else (some a) o = some a

pub find-reload :
    (k : Text) (t acc : Table StorageInfo)
    → IsKeyed t
    → find k (reload (values t) acc) ≡ or_else (find k t) (find k acc)
unfolding reload values find
find-reload k [] acc h = refl
find-reload k ((i, v) ∷ t) acc (own, once, rest) =
    find-reload k t (assign v.url v acc) rest
    ∙ ap (or_else (find k t)) (find-assign v.url k v acc)
    ∙ ap (λ u. or_else (find k t) (if text_eq u k then some v else find k acc)) own
    ∙ choose (text_eq i k) refl
  where
    choose :
        (b : Bool)
        → text_eq i k ≡ b
        → or_else (find k t) (if b then some v else find k acc)
          ≡ or_else (if b then some v else find k t) (find k acc)
    choose true same = rw (rw ((text_eq_iff i k).0 same) at once)
    choose false other = refl
