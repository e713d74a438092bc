-- ===== src/Server/Listing.antt =====
-- src/server/Service.hpp: the page that lists the stored files. `ctime` stands for the C library's
-- function of the same name.
pub mod Template
pub mod Size
pub mod Page
use asyn_log_system.Prelude.{
  ℕ, ◌+◌, ◌≡◌, Bool, true, false, List, [], ◌∷◌, ◌++◌, Option, none, some, if◌then◌else◌, Result,
  ok, err, ◌>>=◌,
}
use asyn_log_system.Prelude.Text.{Text, codes, utf8, contains}
use asyn_log_system.Prelude.Decimal.{decimal}
use asyn_log_system.Server.Config.{Config}
use asyn_log_system.Server.Disk.{Disk, Node, directory, file, Host, file_name}
use asyn_log_system.Server.DataManager.RwLock.{Fault}
use asyn_log_system.Server.DataManager.Entry.{StorageInfo}
use asyn_log_system.Server.DataManager.{get_all}
use asyn_log_system.Server.Service.{signed_decimal, Session, Reply}
use Template.{regex_replace}
use Size.{format_size}

module _ (ctime : ℕ → Text) where
  -- One file of `generateModernFileList(files)`.
  unfoldable pub file_item : StorageInfo → Text
  file_item info =
      codes "<div class='file-item'>"
      ++ codes "<div class='file-info'>"
      ++ utf8 "<span>📄"
      ++ file_name info.storage_path
      ++ codes "</span>"
      ++ codes "<span class='file-type'>"
      ++ (if contains (codes "/deep_storage/") info.storage_path then utf8 "压缩存储" else utf8 "普通存储")
      ++ codes "</span>"
      ++ codes "<span>"
      ++ format_size info.fsize
      ++ codes "</span>"
      ++ codes "<span>"
      ++ ctime info.mtime
      ++ codes "</span>"
      ++ codes "</div>"
      ++ codes "<button onclick=\"window.location='"
      ++ info.url
      ++ utf8 "'\">⬇"
      ++ (0xef ∷ 0xb8 ∷ 0x8f ∷ [])
      ++ utf8 " 下载</button>"
      ++ codes "</div>"

  unfoldable pub file_items : List StorageInfo → Text
  file_items [] = []
  file_items (info ∷ files) = file_item info ++ file_items files

  -- `generateModernFileList(files)`.
  unfoldable pub generate_modern_file_list : List StorageInfo → Text
  generate_modern_file_list files =
      utf8 "<div class='file-list'><h3>已上传文件</h3>" ++ (file_items files ++ codes "</div>")

  -- What is read of `index.html`; `none` if it cannot be opened.
  unfoldable pub read_template : Host → Option Node → Option Text
  read_template h none = none
  read_template h (some directory) = if h.can_read (codes "index.html") then some [] else none
  read_template h (some (file f)) = if h.can_read (codes "index.html") then some f.content else none

  -- The two replacements of `ListShow`.
  unfoldable pub fill_template : Config → List StorageInfo → Text → Text
  fill_template c files template =
      regex_replace (codes "{{BACKEND_URL}}")
        (codes "http://" ++ c.server_ip ++ codes ":" ++ signed_decimal c.server_port)
        (regex_replace (codes "{{FILE_LIST}}") (generate_modern_file_list files) template)

  -- The reply of `ListShow`; without a template there is none.
  unfoldable pub show_page : Config → List StorageInfo → Option Text → Session → Session
  show_page c files none s = s
  show_page c files (some template) s = record s {
    replies =
        s.replies
        ++ record {
          code = 200;
          reason = none;
          headers = (codes "Content-Type", codes "text/html;charset=utf-8") ∷ [];
          body = fill_template c files template;
        }
          ∷ [];
  }

  -- `ListShow(req, arg)`.
  unfoldable pub list_show : Host → Config → Session → Result Fault Session
  list_show h c s = do
    (files, m) ← get_all h s.world.manager
    let template = read_template h (s.world.disk.nodes (codes "index.html"))
    ok (show_page c files template (record s { world = record s.world { manager = m } }))
