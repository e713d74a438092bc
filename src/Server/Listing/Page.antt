-- ===== src/Server/Listing/Page.antt =====
-- src/server/Service.hpp: the page that `ListShow` sends.
use asyn_log_system.Server.DataManager.{iterated}
use asyn_log_system.Server.DataManager.Access.{get_all_same}
use asyn_log_system.Server.Disk.Laws.{Holds}
use asyn_log_system.Server.DataManager.RwLock.{unlocked}
use asyn_log_system.Server.Listing.Template.{regex_replace}
use asyn_log_system.Server.DataManager.Entry.{StorageInfo}
use asyn_log_system.Server.Service.{signed_decimal, Session}
use asyn_log_system.Server.Disk.{Host}
use asyn_log_system.Server.Config.{Config}
use asyn_log_system.Prelude.Text.{has, codes, Text}
use asyn_log_system.Prelude.{
  append_assoc, sym, refl, [], ◌∷◌, none, ap, ok, ◌∙◌, drop, false, true, ◌≡◌, ◌++◌, List, ℕ,
}
use asyn_log_system.Server.Listing.{
  generate_modern_file_list, read_template, fill_template, show_page, list_show,
}
use asyn_log_system.Server.Listing.Template.Replace.{
  clear, is_dollar, regex_replace-match, regex_replace-clear,
}

-- The two placeholders of the template.
abbrev pub file_list : Text
file_list = codes "{{FILE_LIST}}"

abbrev pub backend_url : Text
backend_url = codes "{{BACKEND_URL}}"

-- The address of the service.
abbrev pub address : Config → Text
address c = codes "http://" ++ c.server_ip ++ codes ":" ++ signed_decimal c.server_port

-- A template with one place for the list and, behind it, one for the address; what is put in holds
-- no `$` and no placeholder.
pub record IsTemplate (c : Config) (a b d list : Text) : Type 0 where
  pub before_list : clear file_list a ≡ true
  pub after_list : clear file_list (b ++ (backend_url ++ d)) ≡ true
  pub before_url : clear backend_url (a ++ (list ++ b)) ≡ true
  pub after_url : clear backend_url d ≡ true
  pub list_plain : has is_dollar list ≡ false
  pub address_plain : has is_dollar (address c) ≡ false

-- The template of those parts, and the page that is made of it.
abbrev pub template_of : Text → Text → Text → Text
template_of a b d = a ++ (file_list ++ (b ++ (backend_url ++ d)))

regroup : (a s b x : Text) → a ++ (s ++ (b ++ x)) ≡ a ++ (s ++ b) ++ x
regroup a s b x = sym (append_assoc a (s ++ b) x ∙ ap (◌++◌ a) (append_assoc s b x))

module _ (ctime : ℕ → Text) (c : Config) (files : List StorageInfo) where
  abbrev pub page_of : Text → Text → Text → Text
  page_of a b d = a ++ (generate_modern_file_list ctime files ++ (b ++ (address c ++ d)))

  fill_template-page :
      (a b d : Text)
      → IsTemplate c a b d (generate_modern_file_list ctime files)
      → fill_template ctime c files (template_of a b d) ≡ page_of a b d
  unfolding fill_template
  fill_template-page a b d t =
      let list : Text = generate_modern_file_list ctime files in
      let first : regex_replace file_list list (template_of a b d)
          ≡ a ++ (list ++ (b ++ (backend_url ++ d))) =
        regex_replace-match b'{' (drop 1 file_list) list a (b ++ (backend_url ++ d)) t.before_list
          t.list_plain
        ∙ ap (λ x. a ++ (list ++ x))
            (regex_replace-clear file_list list (b ++ (backend_url ++ d)) t.after_list) in
      let joined : a ++ (list ++ (b ++ (backend_url ++ d)))
          ≡ a ++ (list ++ b) ++ (backend_url ++ d) =
        regroup a list b (backend_url ++ d) in
      ap (regex_replace backend_url (address c)) (first ∙ joined)
      ∙ regex_replace-match b'{' (drop 1 backend_url) (address c) (a ++ (list ++ b)) d t.before_url
          t.address_plain
      ∙ (ap (λ x. a ++ (list ++ b) ++ (address c ++ x))
            (regex_replace-clear backend_url (address c) d t.after_url)
          ∙ sym (regroup a list b (address c ++ d)))

-- If the lock is free and index.html can be opened and is a template with one place for the list
-- and one behind it for the address, where what is put in holds no $ and no placeholder, ListShow
-- changes nothing and sends one reply of status 200, whose body is the template with the list of
-- all stored files, in the order of an iteration, and the address of the service in their places.
pub list_show-page :
    (ctime : ℕ → Text) (h : Host) (c : Config) (s : Session) (a b d : Text)
    → s.world.manager.lock ≡ unlocked
    → Holds s.world.disk (codes "index.html") (template_of a b d)
    → h.can_read (codes "index.html") ≡ true
    → let files = iterated h s.world.manager.table in
      IsTemplate c a b d (generate_modern_file_list ctime files)
      → list_show ctime h c s
        ≡ ok (record s {
          replies =
              s.replies
              ++ record {
                code = 200;
                reason = none;
                headers = (codes "Content-Type", codes "text/html;charset=utf-8") ∷ [];
                body = page_of ctime c files a b d;
              }
                ∷ [];
        })
unfolding list_show show_page read_template
list_show-page ctime h c s a b d free (f, at, e) readable t =
    rw
      (
        get_all_same h s.world.manager free,
        at,
        readable,
        e,
        fill_template-page ctime c (iterated h s.world.manager.table) a b d t,
      )
      refl
