-- ===== src/Server/Service/Replies.antt =====
-- src/server/Service.hpp: how many replies `Upload` sends to a request.
use asyn_log_system.Prelude.{
  ℕ, ◌+◌, ◌≡◌, ap, inl, inr, Bool, true, false, ◌++◌, length, length-append, Option, none, some,
  ◌==◌, if◌then◌else◌, ok, >>=-eq-ok, ok_injective, replicate, Bool-cases, arith, subst,
}
use asyn_log_system.Prelude.Text.{Text, codes}
use asyn_log_system.Server.Config.{Config}
use asyn_log_system.Json.{Json}
use asyn_log_system.Server.Disk.{Host, Bundle, create_directory}
use asyn_log_system.Server.DataManager.Entry.{blank, new_storage_info}
use asyn_log_system.Server.DataManager.{insert}
use asyn_log_system.Server.Service.Paths.{storage_dir}
use asyn_log_system.Server.Service.{
  Request, Session, send, on_disk, or_null, or_bad_base64, finish_upload, store_upload, upload_into,
  upload_as, upload_body, upload_input, upload,
}

-- The replies that a handler has added.
abbrev pub Sends : ℕ → Session → Session → Type 0
Sends n s s' = length s'.replies ≡ length s.replies + n

send-Sends : (code : ℕ) (reason : Option Text) (s : Session) → Sends 1 s (send code reason s)
unfolding send
send-Sends code reason s = length-append s.replies _

-- One reply, and one more if the body could not be copied.
unfoldable pub replies_to_body : Bool → ℕ
replies_to_body true = 1
replies_to_body false = 2

-- How many replies an upload gets, by its input buffer and by whether that can be copied.
unfoldable pub replies_to_upload : Option Text → Bool → ℕ
replies_to_upload none copies = 0
replies_to_upload (some body) copies = if length body == 0 then 1 else replies_to_body copies

module _ (j : Json) (b : Bundle) (base64_decode : Text → Option Text) (h : Host) (c : Config)
    (strerror : Text) (junk : ℕ) where
  finish_upload-Sends :
      (path : Text) (s s' : Session)
      → finish_upload j b base64_decode h c strerror junk path s ≡ ok s'
      → Sends 1 s s'
  unfolding finish_upload
  finish_upload-Sends path s s' e =
      let (known, e1, e2) = >>=-eq-ok (new_storage_info c h path s.world.disk (blank junk)) _ e in
      let (stored, e3, e4) = >>=-eq-ok (insert j h known.1 s.world) _ e2 in
      subst (Sends 1 s) (ok_injective e4)
        (send-Sends 200 (some (codes "Success")) (record s { world = stored.1 }))

  upload_into-Sends :
      (dir : Option Text) (name content : Text) (s s' : Session)
      → upload_into j b base64_decode h c strerror junk dir name content s ≡ ok s'
      → Sends 1 s s'
  unfolding upload_into
  upload_into-Sends none name content s s' e =
      subst (Sends 1 s) (ok_injective e) (send-Sends 400 _ s)
  upload_into-Sends (some dir) name content s s' e =
      let stored =
        store_upload j b base64_decode h c strerror junk (dir ++ name) content
          (create_directory dir s.world.disk) in
      elim (Bool-cases stored.0) [
        | inl done ↦ finish_upload-Sends (dir ++ name) (on_disk stored.1 s) s' (rw done at e)
        | inr failed ↦
            subst (Sends 1 s) (ok_injective (rw failed at e))
              (send-Sends 500 _ (on_disk stored.1 s))
      ]

  upload_body-Sends :
      (req : Request) (body : Text) (s s' : Session)
      → upload_body j b base64_decode h c strerror junk req body s ≡ ok s'
      → Sends (replies_to_body req.copies) s s'
  unfolding upload_body upload_as replies_to_body
  upload_body-Sends req body s s' e =
      let (header, e1, e2) = >>=-eq-ok (or_null req.file_name) _ e in
      let (name, e3, e4) =
        >>=-eq-ok (or_bad_base64 j b base64_decode h c strerror junk (base64_decode header)) _ e2 in
      let (storage_type, e5, e6) = >>=-eq-ok (or_null req.storage_type) _ e4 in
      let one =
        upload_into-Sends (storage_dir c storage_type) name
          (if req.copies then body else replicate (length body) 0)
          (if req.copies then s else send 500 none s) s' e6 in
      elim (Bool-cases req.copies) [
        | inl copied ↦ rw copied (rw copied at one)
        | inr failed ↦ rw failed (omega (arith, rw failed at one, send-Sends 500 none s))
      ]

  upload_input-Sends :
      (input : Option Text) (req : Request) (s s' : Session)
      → upload_input j b base64_decode h c strerror junk input req s ≡ ok s'
      → Sends (replies_to_upload input req.copies) s s'
  unfolding upload_input replies_to_upload
  upload_input-Sends none req s s' e = omega (arith, ap (λ x. length x.replies) (ok_injective e))
  upload_input-Sends (some body) req s s' e = elim (Bool-cases (length body == 0)) [
    | inl nothing ↦
        rw nothing (subst (Sends 1 s) (ok_injective (rw nothing at e)) (send-Sends 400 _ s))
    | inr something ↦ rw something (upload_body-Sends req body s s' (rw something at e))
  ]

  -- An upload that comes to its end has sent no reply if there is no input buffer; one if the body
  -- is empty or could be copied; and two if it is not empty and could not be copied.
  pub upload-Sends :
      (req : Request) (s s' : Session)
      → upload j b base64_decode h c strerror junk req s ≡ ok s'
      → Sends (replies_to_upload req.body req.copies) s s'
  unfolding upload
  upload-Sends req s s' e = upload_input-Sends req.body req s s' e
