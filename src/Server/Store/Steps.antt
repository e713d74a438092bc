-- ===== src/Server/Store/Steps.antt =====
-- src/server/Service.hpp: one request that makes a call, on a service that stands for a map.
use asyn_log_system.Server.Store.Served.{AfterRead, as_before, after_serving, Coheres-AfterRead}
use asyn_log_system.Server.Service.Stores.{
  upload-deep, download-download_entry, is_raw-low, upload-low, IsUpload,
}
use asyn_log_system.Server.Disk.Laws.{Holds, Writable}
use asyn_log_system.Server.Store.Coheres.{Coheres-put, stored_path-dir, IsPut, IsStored, Coheres}
use asyn_log_system.Server.Url.{url_decode}
use asyn_log_system.Server.Service.Effects.{create_directory-IsNoDirectory, Replied}
use asyn_log_system.Server.Service.Downloads.{
  download_entry-packed_world, download_entry-raw_world, download_entry-raw,
}
use asyn_log_system.Server.Service.RoundTrip.{download_packed, IsServable}
use asyn_log_system.Server.Handler.{route, gen_handler}
use asyn_log_system.Server.Service.{upload, download_entry, send, Request, Session}
use asyn_log_system.Server.Config.{Config}
use asyn_log_system.Prelude.Table.{find, Table}
use asyn_log_system.Prelude.Text.{contains_more, text_eq, codes, begins, after_last, contains, Text}
use asyn_log_system.Json.{Json}
use asyn_log_system.Server.Store.{
  Call, put, get, unknown, after, unknown, after, Call, stored_url, stored_path, Unpacks,
  stored_bytes, IsStorable, type_of, IsUsable, dir_of, key, Answer, Kind, low, deep,
}
use asyn_log_system.Server.Service.Paths.{is_raw, unpacked_path, is_low_path}
use asyn_log_system.Server.Disk.{Host, Bundle, create_directory}
use asyn_log_system.Prelude.{
  append-nil, ◌∙◌, drop, ◌++◌, length-append, ap, subst, arith, false, [], true, ◌==◌, length, sym,
  ok, ◌≢◌, ◌≤◌, some, ◌≡◌, ℕ, Option, refl,
}

module _ (j : Json) (b : Bundle) (base64_decode : Text → Option Text) (h : Host) (c : Config)
    (strerror : Text) (junk : ℕ) (ctime : ℕ → Text) where
  -- What a call does to the service.
  abbrev pub Effect : Call → Session → Session → Type 0
  Effect (put k name content) s s' = IsPut j b h c k name content s s'
  Effect (get k name) s s' = AfterRead h c s.world s'.world
  Effect unknown s s' = AfterRead h c s.world s'.world

  -- What one request does: one more reply, with the answer to the call.
  abbrev pub Answered : Request → Call → Session → Table Text → Answer → Type 0
  Answered req call s t a =
      (s' : Session) × (gen_handler j b base64_decode h c strerror junk ctime req s ≡ ok s')
      × Replied (a.0) (a.1) s s'
      × Effect call s s'
      × Coheres b h c s'.world (after call t)

  long_path : (k : Kind) (name : Text) → IsUsable c → 2 ≤ length (stored_path c k name)
  long_path k name u = omega (arith, u.long k, length-append (dir_of c k) name)

  pub Writable-stored :
      (k : Kind) (name content : Text) (s : Session) (t : Table Text)
      → IsStorable b h c k name content
      → IsUsable c
      → Coheres b h c s.world t
      → Writable h
          (stored_path c k name)
          (length (stored_bytes b c k content))
          (create_directory (dir_of c k) s.world.disk)
  Writable-stored k name content s t can u co = record {
    opens = can.opens;
    free =
        create_directory-IsNoDirectory (dir_of c k) s.world.disk (stored_path c k name)
          (stored_path-dir c u k k name can.named) (co.files k name can.named);
    fits = can.fits;
  }

  name_behind :
      (path : Text)
      → unpacked_path c path ≢ c.uncompress_dir
      → after_last (λ x. x == b'/') path ≢ []
  unfolding unpacked_path
  name_behind path ne e = ne (ap (◌++◌ c.uncompress_dir) e ∙ append-nil c.uncompress_dir)

  Writable-unpacked :
      (path packed content : Text) (s : Session) (t : Table Text)
      → IsServable b h c path packed content
      → Coheres b h c s.world t
      → Writable h
          (unpacked_path c path)
          (length content)
          (create_directory c.uncompress_dir s.world.disk)
  unfolding unpacked_path
  Writable-unpacked path packed content s t v co = record {
    opens = v.target_opens;
    free =
        create_directory-IsNoDirectory c.uncompress_dir s.world.disk _ v.target_ne
          (co.unpacked (after_last (λ x. x == b'/') path) (name_behind path v.target_ne));
    fits = v.target_fits;
  }

  upload-IsPut :
      (k : Kind) (req : Request) (name content : Text) (s : Session) (t : Table Text)
      → IsUpload base64_decode req name (type_of k) content
      → IsStorable b h c k name content
      → IsUsable c
      → Coheres b h c s.world t
      → (s' : Session) × (upload j b base64_decode h c strerror junk req s ≡ ok s')
        × IsPut j b h c k name content s s'
  unfolding type_of dir_of stored_bytes Unpacks is_low_path
  upload-IsPut low req name content s t up can u co =
      upload-low j b base64_decode h c strerror junk req name content s up co.free
        (contains_more (codes "low_storage") c.low_storage_dir name u.low_named)
        (λ e. can.apart (e ∙ co.file_at)) (long_path low name u)
        (Writable-stored low name content s t can u co)
  upload-IsPut deep req name content s t up can u co =
      upload-deep j b base64_decode h c strerror junk req name content s up co.free
        can.unpacks.not_low can.unpacks.nonempty (λ e. can.apart (e ∙ co.file_at))
        (long_path deep name u) (Writable-stored deep name content s t can u co)

  pub gen_handler-put :
      (k : Kind) (req : Request) (name content : Text) (s : Session) (t : Table Text)
      → url_decode req.path ≡ ok (codes "/upload")
      → IsUpload base64_decode req name (type_of k) content
      → IsStorable b h c k name content
      → IsUsable c
      → Coheres b h c s.world t
      → Answered req (put k name content) s t (200, [])
  unfolding after gen_handler route contains begins text_eq
  gen_handler-put k req name content s t decoded up can u co =
      let (s', uploaded, done) = upload-IsPut k req name content s t up can u co in
      (
        s',
        rw decoded uploaded,
        done.replied,
        done,
        Coheres-put j b h c k name content s s' t done u can co,
      )

  -- The download of a stored file, with the service unchanged but for the disk.
  download_entry-stored :
      (k : Kind) (name content : Text) (s : Session) (t : Table Text)
      (st : IsStored b h c s.world k name content)
      → IsUsable c
      → Coheres b h c s.world t
      → let s' = download_entry j b base64_decode h c strerror junk st.entry s in
        Replied 200 content s s' × AfterRead h c s.world s'.world
  unfolding dir_of stored_bytes Unpacks unpacked_path
  download_entry-stored low name content s t st u co =
      let held = subst (λ p. Holds s.world.disk p content) (sym st.own_path) st.held in
      let raw = subst (λ p. is_raw c p ≡ true) (sym st.own_path) (is_raw-low c name) in
      let readable = subst (λ p. h.can_read p ≡ true) (sym st.own_path) st.can.readable in
      (
        download_entry-raw j b base64_decode h c strerror junk st.entry content s held raw readable,
        subst (AfterRead h c s.world)
            (sym (
              download_entry-raw_world j b base64_decode h c strerror junk st.entry content s held
                raw readable))
            as_before,
      )
  download_entry-stored deep name content s t st u co =
      let v = st.can.unpacks.servable in
      let path : Text = stored_path c deep name in
      let packed : Text = b.pack c.bundle_format content in
      let m : Text = after_last (λ x. x == b'/') path in
      let room = Writable-unpacked path packed content s t v co in
      (
        download_packed j b base64_decode h c strerror junk st.entry path packed content s
            st.own_path st.held v.not_raw v.short v.readable v.unpacks room v.target_readable,
        subst (AfterRead h c s.world)
            (sym (
              download_entry-packed_world j b base64_decode h c strerror junk st.entry path packed s
                st.own_path st.held v.not_raw v.short v.readable
                (subst
                  (λ x.
                    Writable h (unpacked_path c path) (length x)
                      (create_directory c.uncompress_dir s.world.disk))
                  (sym v.unpacks) room)
                v.target_readable (λ e. u.unpacked_apart deep name m (sym e))))
            (after_serving m (b.unpack packed)),
      )

  pub gen_handler-get :
      (k : Kind) (req : Request) (name content : Text) (s : Session) (t : Table Text)
      → url_decode req.path ≡ ok (stored_url c k name)
      → find (key k name) t ≡ some content
      → IsUsable c
      → Coheres b h c s.world t
      → Answered req (get k name) s t (200, content)
  unfolding gen_handler route after
  gen_handler-get k req name content s t decoded known u co =
      let st = co.stored k name content known in
      let here : contains (codes "/download/") (stored_url c k name) ≡ true =
        contains_more (codes "/download/") c.download_prefix (drop 2 (stored_path c k name))
          u.prefixed in
      let (sent, kept) = download_entry-stored k name content s t st u co in
      (
        download_entry j b base64_decode h c strerror junk st.entry s,
        rw (decoded, here)
            (download-download_entry j b base64_decode h c strerror junk req (stored_url c k name)
              st.entry s decoded st.found co.free),
        sent,
        kept,
        Coheres-AfterRead b h c s.world _ t kept u co,
      )

  pub gen_handler-unknown :
      (req : Request) (path : Text) (s : Session) (t : Table Text)
      → url_decode req.path ≡ ok path
      → contains (codes "/download/") path ≡ false
      → text_eq path (codes "/upload") ≡ false
      → text_eq path (codes "/") ≡ false
      → Coheres b h c s.world t
      → Answered req unknown s t (404, [])
  unfolding gen_handler route send after
  gen_handler-unknown req path s t decoded e1 e2 e3 co = (
    send 404 (some (codes "Not Found")) s,
    rw (decoded, e1, e2, e3) refl,
    (_, refl, refl, refl),
    as_before,
    co,
  )
