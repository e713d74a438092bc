-- ===== src/Server/Store.antt =====
-- src/server/Service.hpp: the service as a map from names to contents, and the requests that stand
-- for the calls of that map.
pub mod Coheres
pub mod Served
pub mod Steps
pub mod Refine
use asyn_log_system.Server.Service.RoundTrip.{IsServable}
use asyn_log_system.Server.Service.Paths.{is_low_path}
use asyn_log_system.Prelude.{
  false, ℕ, ◌≡◌, ◌≢◌, ◌≤◌, true, List, [], ◌∷◌, ◌++◌, drop, length, Option, none, some, Result, ok,
  err, ◌>>=◌, size_mod,
}
use asyn_log_system.Prelude.{◌==◌}
use asyn_log_system.Prelude.Text.{has, c_str, Text, codes, text_eq, contains}
use asyn_log_system.Prelude.Table.{Table, find, assign}
use asyn_log_system.Server.Config.{Config}
use asyn_log_system.Server.Disk.{Bundle, Host}
use asyn_log_system.Server.DataManager.RwLock.{Fault}
use asyn_log_system.Server.Url.{url_decode}
use asyn_log_system.Server.Service.{Request, Session, Reply}
use asyn_log_system.Server.Service.Stores.{IsUpload}

-- The two storage types: as it is, or packed.
pub data Kind : Type 0 where
  low deep : Kind

-- A call: store a content under a name, ask for the content of a name, or something unknown.
pub data Call : Type 0 where
  put : Kind → Text → Text → Call
  get : Kind → Text → Call
  unknown : Call

-- The key of a name: the two types have names of their own.
unfoldable pub key : Kind → Text → Text
key low name = 0 ∷ name
key deep name = 1 ∷ name

-- The code of an answer and its body.
abbrev pub Answer : Type 0
Answer = ℕ × Text

unfoldable pub known : Option Text → Option Answer
known none = none
known (some content) = some (200, content)

-- The answer to one call; `none` if a name is asked for that nobody stored.
unfoldable pub answer : Call → Table Text → Option Answer
unfolding known
answer (put k name content) t = some (200, [])
answer (get k name) t = known (find (key k name) t)
answer unknown t = some (404, [])

unfoldable pub after : Call → Table Text → Table Text
after (put k name content) t = assign (key k name) content t
after (get k name) t = t
after unknown t = t

unfoldable pub both : Option Answer → Option (List Answer) → Option (List Answer)
both none rest = none
both (some a) none = none
both (some a) (some rest) = some (a ∷ rest)

-- What the calls are answered, in order.
unfoldable pub answers : List Call → Table Text → Option (List Answer)
answers [] t = some []
answers (call ∷ calls) t = both (answer call t) (answers calls (after call t))

-- The map after the calls.
unfoldable pub after_all : List Call → Table Text → Table Text
after_all [] t = t
after_all (call ∷ calls) t = after_all calls (after call t)

-- The answers that replies give.
unfoldable pub answers_of : List Reply → List Answer
answers_of [] = []
answers_of (r ∷ rs) = (r.code, r.body) ∷ answers_of rs

-- A handler, called for one request after the other.
unfoldable pub handle_all :
    (Request → Session → Result Fault Session) → List Request → Session → Result Fault Session
handle_all handler [] s = ok s
handle_all handler (req ∷ reqs) s = do s' ← handler req s; handle_all handler reqs s'

unfoldable pub type_of : Kind → Text
type_of low = codes "low"
type_of deep = codes "deep"

unfoldable pub dir_of : Config → Kind → Text
dir_of c low = c.low_storage_dir
dir_of c deep = c.deep_storage_dir

-- Where the file of a name is stored, and under which URL.
abbrev pub stored_path : Config → Kind → Text → Text
stored_path c k name = dir_of c k ++ name

abbrev pub stored_url : Config → Kind → Text → Text
stored_url c k name = c.download_prefix ++ drop 2 (stored_path c k name)

-- What is stored of a content.
unfoldable pub stored_bytes : Bundle → Config → Kind → Text → Text
stored_bytes b c low content = content
stored_bytes b c deep content = b.pack c.bundle_format content

-- A name for one entry of a directory, which names no entry of another one.
pub record IsFileName (name : Text) : Type 0 where
  pub some_byte : name ≢ []
  pub no_dot : name ≢ codes "."
  pub no_dots : name ≢ codes ".."
  pub no_slash : has (λ x. x == b'/') name ≡ false
  pub plain : c_str name ≡ name

abbrev pub AreFileNames : List Text → Type 0
AreFileNames [] = Unit
AreFileNames (name ∷ names) = IsFileName name × AreFileNames names

abbrev pub IsNew : Text → List Text → Type 0
IsNew name [] = Unit
IsNew name (other ∷ names) = (name ≢ other) × IsNew name names

abbrev pub AreDistinct : List Text → Type 0
AreDistinct [] = Unit
AreDistinct (name ∷ names) = IsNew name names × AreDistinct names

-- The three directories and the storage file are entries of the working directory, different from
-- each other and from what else the program uses there. So different texts of the form of
-- `stored_path` stand for different files.
pub record ArePlaces (c : Config) : Type 0 where
  pub low_name : Text
  pub deep_name : Text
  pub uncompress_name : Text
  pub storage_name : Text
  pub low_at : c.low_storage_dir ≡ codes "./" ++ low_name ++ codes "/"
  pub deep_at : c.deep_storage_dir ≡ codes "./" ++ deep_name ++ codes "/"
  pub uncompress_at : c.uncompress_dir ≡ codes "./" ++ uncompress_name ++ codes "/"
  pub storage_at : c.storage_info ≡ codes "./" ++ storage_name
  pub file_names : AreFileNames (low_name ∷ deep_name ∷ uncompress_name ∷ storage_name ∷ [])
  pub distinct : AreDistinct (
      low_name
      ∷ deep_name
      ∷ uncompress_name
      ∷ storage_name
      ∷ codes "Storage.conf"
      ∷ codes "index.html"
      ∷ codes "logfile"
      ∷ [])

-- The settings let a stored file be found again: the URLs are those of downloads, the low
-- directory says so in its name, and the three directories do not overlap.
pub record IsUsable (c : Config) : Type 0 where
  pub places : ArePlaces c
  pub prefixed : contains (codes "/download/") c.download_prefix ≡ true
  pub low_named : contains (codes "low_storage") c.low_storage_dir ≡ true
  pub long : (k : Kind) → 2 ≤ length (dir_of c k)
  pub paths_apart : (n m : Text) → stored_path c low n ≢ stored_path c deep m
  pub urls_apart : (n m : Text) → stored_url c low n ≢ stored_url c deep m
  pub unpacked_apart : (k : Kind) (n m : Text) → stored_path c k n ≢ c.uncompress_dir ++ m

-- A content that is packed comes back when it is unpacked, and there is room for that.
pub record IsPackable (b : Bundle) (h : Host) (c : Config) (name content : Text) : Type 0 where
  pub not_low : is_low_path (stored_path c deep name) ≡ false
  pub nonempty : length (stored_bytes b c deep content) ≢ 0
  pub servable : IsServable b h c (stored_path c deep name) (stored_bytes b c deep content) content

unfoldable pub Unpacks : Bundle → Host → Config → Kind → Text → Text → Type 0
Unpacks b h c low name content = Unit
Unpacks b h c deep name content = IsPackable b h c name content

-- A file of this name, which is that of a file, can be written in full and read, and unpacked where it is packed.
pub record IsStorable (b : Bundle) (h : Host) (c : Config) (k : Kind) (name content : Text)
    : Type 0 where
  pub named : name ≢ []
  pub file_name : IsFileName name
  pub apart : stored_path c k name ≢ c.storage_info
  pub opens : h.can_write (stored_path c k name) ≡ true
  pub fits : length (stored_bytes b c k content) ≤ h.room (stored_path c k name)
  pub readable : h.can_read (stored_path c k name) ≡ true
  pub unpacks : Unpacks b h c k name content

-- The requests that make a call.
pub data Makes (base64_decode : Text → Option Text) (b : Bundle) (h : Host) (c : Config)
    : Request → Call → Type 0 where
  makes_put :
      (req : Request) (k : Kind) (name content : Text)
      → url_decode req.path ≡ ok (codes "/upload")
      → IsUpload base64_decode req name (type_of k) content
      → IsStorable b h c k name content
      → Makes base64_decode b h c req (put k name content)
  makes_get :
      (req : Request) (k : Kind) (name : Text)
      → url_decode req.path ≡ ok (stored_url c k name)
      → Makes base64_decode b h c req (get k name)
  makes_unknown :
      (req : Request) (path : Text)
      → url_decode req.path ≡ ok path
      → contains (codes "/download/") path ≡ false
      → text_eq path (codes "/upload") ≡ false
      → text_eq path (codes "/") ≡ false
      → Makes base64_decode b h c req unknown

pub data MakesAll (base64_decode : Text → Option Text) (b : Bundle) (h : Host) (c : Config)
    : List Request → List Call → Type 0 where
  makes_none : MakesAll base64_decode b h c [] []
  makes_more :
      (req : Request) (call : Call) (reqs : List Request) (calls : List Call)
      → Makes base64_decode b h c req call
      → MakesAll base64_decode b h c reqs calls
      → MakesAll base64_decode b h c (req ∷ reqs) (call ∷ calls)
