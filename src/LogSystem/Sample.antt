-- ===== src/LogSystem/Sample.antt =====
-- A file system for the tests of src/server/Test.cpp and logSystem/logsCode, and the settings of
-- config.conf.
use asyn_log_system.LogSystem.Start.Ready.{Configures}
use asyn_log_system.Json.Sample.{json_laws, json}
use asyn_log_system.Json.Objects.{object}
use asyn_log_system.LogSystem.Util.{FileSystemLaws, FileSystem}
use asyn_log_system.LogSystem.Config.{config_file, Config}
use asyn_log_system.Prelude.{arith, refl, true, [], ◌∷◌, ◌||◌, ◌≡◌, length, List, Bool}
use asyn_log_system.Prelude.Text.{text_eq_refl, codes, Text, text_eq}
use asyn_log_system.LogSystem.Config.Read.{read_config-members, members}

-- The directories that were made.
unfoldable pub is_there : Text → List Text → Bool
is_there p [] = text_eq p (codes ".") || text_eq p (codes "..")
is_there p (q ∷ s) = text_eq p q || is_there p s

is_there_self : (p : Text) (s : List Text) → is_there p (p ∷ s) ≡ true
unfolding is_there
is_there_self p s = rw (text_eq_refl p) refl

is_there_other : (p q : Text) (s : List Text) → is_there q s ≡ true → is_there q (p ∷ s) ≡ true
unfolding is_there
is_there_other p q s e = ground arith

is_there_here : (s : List Text) → is_there (codes ".") s ≡ true
unfolding is_there text_eq
is_there_here [] = refl
is_there_here (q ∷ s) = is_there_other q (codes ".") s (is_there_here s)

is_there_parent : (s : List Text) → is_there (codes "..") s ≡ true
unfolding is_there text_eq
is_there_parent [] = refl
is_there_parent (q ∷ s) = is_there_other q (codes "..") s (is_there_parent s)

-- A file system on which every file that is opened holds some text, or none can be opened.
abbrev pub file_system : Bool → Text → FileSystem
file_system opens body = record {
  State = List Text;
  stat = is_there;
  size = λ p s. length body;
  opens = λ p s. opens;
  bytes = λ p s. body;
  mkdir = λ p s. (true, p ∷ s);
}

pub file_system-FileSystemLaws :
    (opens : Bool) (body : Text) → FileSystemLaws (file_system opens body)
file_system-FileSystemLaws opens body = record {
  stat-mkdir = λ p s e. is_there_self p s;
  stat-mkdir_other = is_there_other;
  stat-here = is_there_here;
  stat-parent = is_there_parent;
}

-- config.conf.
abbrev pub settings : Config
settings = record {
  buffer_size = 10000000;
  threshold = 10000000000;
  linear_growth = 10000000;
  flush_log = 1;
  backup_addr = codes "127.0.0.1";
  backup_port = 8080;
  thread_count = 3;
}

abbrev pub settings_text : Text
settings_text = object json (members json settings)

-- A state in which config.conf is there.
abbrev pub with_settings : List Text
with_settings = config_file ∷ []

pub settings-Configures : Configures json (file_system true settings_text) with_settings settings
unfolding is_there text_eq
settings-Configures =
    read_config-members json json_laws (file_system true settings_text) with_settings settings_text
      settings refl refl refl refl refl (omega arith) (omega arith) (omega arith) (omega arith)
      (omega arith) (omega arith)
